-- ===== src/Store/Invariant/Rows.antt =====
-- Tests and updates of the rows of the machine table, which has one row for each id.
use wgroster.Prelude.{
  ◌≡◌, refl, ◌∙◌, Bool, true, false, ◌&&◌, List, [], ◌∷◌, Text, text_eq, ltb, ◌==◌, if◌then◌else◌,
  select, update, any, All, Apart, arith, sort_by, insert_by,
}
use wgroster.Store.Models.{Machine}
use wgroster.Store.Db.{Db}
use wgroster.Store.Invariant.{SameId}
use wgroster.Store.Service.{list_machines_by_owner}

pub update-update :
    (p q : Machine → Bool) (g : Machine → Machine)
    → ((m : Machine) → g (g m) ≡ g m)
    → ((m : Machine) → q (g m) ≡ q m)
    → (xs : List Machine)
    → update q g (update p g xs) ≡ update (λ m. if p m then true else q m) g xs
update-update p q g idem same [] = refl
update-update p q g idem same (x ∷ xs) =
    ground (arith, update-update p q g idem same xs, idem x, same x)

pub update-never : (g : Machine → Machine) (xs : List Machine) → update (λ _. false) g xs ≡ xs
update-never g [] = refl
update-never g (x ∷ xs) = rw (update-never g xs)

-- A test on the rows of a query is a test on the table.
any-insert :
    (q : Machine → Bool) (before : Machine → Machine → Bool) (m : Machine) (ms : List Machine)
    → any q (insert_by before m ms) ≡ any q (m ∷ ms)
unfolding insert_by
any-insert q before m [] = refl
any-insert q before m (n ∷ ns) = ground (arith, any-insert q before m ns)

pub any-sort :
    (q : Machine → Bool) (before : Machine → Machine → Bool) (ms : List Machine)
    → any q (sort_by before ms) ≡ any q ms
unfolding sort_by
any-sort q before [] = refl
any-sort q before (m ∷ ms) =
    rw (any-insert q before m (sort_by before ms), any-sort q before ms) refl

any_of-select :
    (q p : Machine → Bool) (ms : List Machine) → any q (select p ms) ≡ any (λ m. p m && q m) ms
any_of-select q p [] = refl
any_of-select q p (m ∷ ms) = ground (arith, any_of-select q p ms)

pub any-list_by_owner :
    (q : Machine → Bool) (uid : Text) (db : Db)
    → any q (list_machines_by_owner uid db) ≡ any (λ m. text_eq m.owner_uid uid && q m) db.machines
unfolding list_machines_by_owner
any-list_by_owner q uid db =
    any-sort q (λ m n. ltb n.created_at m.created_at)
      (select (λ m. text_eq m.owner_uid uid) db.machines)
    ∙ any_of-select q (λ m. text_eq m.owner_uid uid) db.machines

-- With unique ids, a test of the row that has an id is a test of the row itself.
no-id :
    (q : Machine → Bool) (m : Machine) (ms : List Machine)
    → All (λ n. ¬ SameId m n) ms
    → any (λ n. q n && m.id == n.id) ms ≡ false
no-id q m [] h = refl
no-id q m (n ∷ ns) h = ground (arith, no-id q m ns h.1, h.0)

pub row-by_id :
    (q : Machine → Bool) (ms : List Machine)
    → Apart SameId ms
    → All (λ m. any (λ n. q n && m.id == n.id) ms ≡ q m) ms
row-by_id q [] h = tt
row-by_id q (m ∷ ms) h = (ground (arith, no-id q m ms h.0), skip ms h.0 (row-by_id q ms h.1))
  where
    skip :
        (ns : List Machine)
        → All (λ n. ¬ SameId m n) ns
        → All (λ n. any (λ k. q k && n.id == k.id) ms ≡ q n) ns
        → All (λ n. any (λ k. q k && n.id == k.id) (m ∷ ms) ≡ q n) ns
    skip [] a b = tt
    skip (n ∷ ns) a b = (ground (arith, a.0, b.0), skip ns a.1 b.1)

pub update-same :
    (p q : Machine → Bool) (g : Machine → Machine) (ms : List Machine)
    → All (λ m. p m ≡ q m) ms
    → update p g ms ≡ update q g ms
update-same p q g [] h = refl
update-same p q g (m ∷ ms) h = rw (h.0, update-same p q g ms h.1) refl
