-- ===== src/Store/Audit.antt =====
-- internal/store/audit.go.
use wgroster.Prelude.{List, zero, suc, ℕ, [], ◌∷◌, ◌++◌, Text, ltb, length, select, delete}
use wgroster.Store.Db.{Db, AuditEntry}

-- AddAudit.
unfoldable pub add_audit : ℕ → Text → Text → Text → Db → Db
add_audit now actor action target db = record db {
  audit_log =
      db.audit_log ++ record { ts = now; actor = actor; action = action; target = target } ∷ [];
}

-- DeleteAuditBefore: how many rows were removed, and the database after.
unfoldable pub delete_audit_before : ℕ → Db → ℕ × Db
delete_audit_before cutoff db =
    let old = λ (e : AuditEntry). ltb e.ts cutoff in
    (length (select old db.audit_log), record db { audit_log = delete old db.audit_log })

-- The newest entries first, as the ids grow with the order of insertion.
newest_first : List AuditEntry → List AuditEntry → List AuditEntry
newest_first acc [] = acc
newest_first acc (e ∷ es) = newest_first (e ∷ acc) es

take : ℕ → List AuditEntry → List AuditEntry
take zero es = []
take (suc n) [] = []
take (suc n) (e ∷ es) = e ∷ take n es

-- ListAudit.
unfoldable pub list_audit : ℕ → Db → List AuditEntry
unfolding newest_first take
list_audit limit db = take limit (newest_first [] db.audit_log)
