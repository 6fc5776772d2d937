-- ===== src/Tests/Logins.antt =====
-- A login of ada, with a signature that appends the message to the key.
use wgroster.Prelude.{
  ◌≤◌, ◌≡◌, ◌≢◌, refl, true, false, Option, some, List, [], ◌∷◌, ◌++◌, Text, txt, text_eq,
  text_discrete, Apart, any, arith,
}
use wgroster.Store.Db.{ok}
use wgroster.Store.Sessions.{Session, session, has_sid}
use wgroster.Auth.{
  Manager, put, new_manager, cookie_value, new_session, issue, read, read_parts, cut, load, refresh,
  revoke_user, destroy, sweep_expired,
}
use wgroster.Auth.Access.{IsAdmitted, read-IsAdmitted, issue-read, revoke_user-read, destroy-read}
use wgroster.Web.Guard.{Request, run, user, user_with, refusal, cross_origin, admin}
use wgroster.Web.Guard.Access.{IsAllowed, user-IsAllowed, admin-IsAllowed}
use wgroster.Auth.Renewal.{IsCapped, SameSid, sweep_expired-read, refresh-IsCapped}

abbrev sign : Text → Text → Text
sign key message = key ++ message

abbrev manager : Manager
manager = record { key = txt "k"; secure = true; cookie = txt "c"; ttl = 100; max_life = 150 }

abbrev ada : Session
ada = new_session manager 10 (txt "s1") (txt "x") (txt "ada") (txt "Ada") false false

abbrev bob : Session
bob = new_session manager 20 (txt "s2") (txt "y") (txt "bob") [] true false

abbrev table : List Session
table = ada ∷ bob ∷ []

abbrev value : Text
value = txt "s1.ks1"

read_test : (read sign manager 60 (some value) table).0 ≡ some ada
unfolding read read_parts cut load session text_discrete
read_test = refl

read-IsAdmitted_example : IsAdmitted sign manager 60 value table ada
read-IsAdmitted_example = read-IsAdmitted sign manager 60 value table ada read_test

free_sid : any (has_sid (txt "s3")) table ≡ false
unfolding text_discrete
free_sid = refl

abbrev real : Manager
real = new_manager (txt "k") true 0 10

abbrev eve : Session
eve = new_session real 30 (txt "s3") (txt "z") (txt "eve") [] false false

eve_live : 40 ≤ eve.expiry
unfolding new_manager
eve_live = omega arith

issue-read_example :
    (issue sign real 30 (txt "s3") (txt "z") (txt "eve") [] false false table
      ≡ ok (eve, put real.cookie (cookie_value sign real (txt "s3")) eve.expiry, table ++ eve ∷ []))
    × (read sign real 40 (some (cookie_value sign real (txt "s3"))) (table ++ eve ∷ [])
        ≡ (some eve, table ++ eve ∷ []))
issue-read_example =
    issue-read sign (txt "k") true 0 10 30 40 (txt "s3") (txt "z") (txt "eve") [] false false table
      free_sid refl (omega arith) eve_live

revoked_test : (read sign manager 60 (some value) (revoke_user (txt "bob") table)).0 ≡ some ada
unfolding read read_parts cut load session revoke_user
    wgroster.Store.Sessions.delete_sessions_by_uid text_discrete
revoked_test = refl

revoke_user-read_example : ada.uid ≢ txt "bob"
revoke_user-read_example = revoke_user-read sign manager 60 value (txt "bob") table ada revoked_test

destroyed_test :
    (read sign manager 60 (some value) (destroy manager (txt "s2") table).1).0 ≡ some ada
unfolding read read_parts cut load session destroy wgroster.Store.Sessions.delete_session
    text_discrete
destroyed_test = refl

destroy-read_example : ada.sid ≢ txt "s2"
destroy-read_example =
    destroy-read sign manager 60 value (txt "s2") table ada (λ e. ground arith) destroyed_test

table-Apart : Apart SameSid table
table-Apart = ((λ e. ground arith, tt), (tt, tt))

sweep_expired-read_example :
    (read sign manager 130 (some value) (sweep_expired 115 table).1).0
    ≡ (read sign manager 130 (some value) table).0
sweep_expired-read_example =
    sweep_expired-read sign manager 115 130 value table table-Apart (omega arith)

ada_stored : session (txt "s1") table ≡ some ada
unfolding session text_discrete
ada_stored = refl

refresh-IsCapped_example : IsCapped manager (refresh sign manager 80 ada table).2
refresh-IsCapped_example =
    refresh-IsCapped sign manager 80 ada table table-Apart ada_stored
      (omega arith, (omega arith, tt))

-- bob, an admin, sends a form with his token from the portal's own page.
abbrev form : Request
form = record {
  cookie = some (txt "s2.ks2");
  is_read = false;
  origin = txt "vpn";
  referer = [];
  host = txt "vpn";
  csrf = txt "y";
}

abbrev host_of : Text → Option Text
host_of t = some t

abbrev renewed_bob : Session
renewed_bob = record bob { expiry = 160 }

user_test : (user host_of text_eq sign manager 60 form table).0 ≡ run renewed_bob
unfolding user user_with refusal cross_origin refresh read read_parts cut load session text_discrete
user_test = refl

user-IsAllowed_example : IsAllowed host_of text_eq sign manager 60 form table renewed_bob
user-IsAllowed_example =
    user-IsAllowed host_of text_eq sign manager 60 form table renewed_bob user_test

admin_test : (admin host_of text_eq sign manager 60 form table).0 ≡ run renewed_bob
unfolding admin user user_with refusal cross_origin refresh read read_parts cut load session
    text_discrete
admin_test = refl

admin-IsAllowed_example :
    IsAllowed host_of text_eq sign manager 60 form table renewed_bob × (renewed_bob.admin ≡ true)
admin-IsAllowed_example =
    admin-IsAllowed host_of text_eq sign manager 60 form table renewed_bob admin_test
