-- ===== src/Scenarios/Admitted.antt =====
-- The theorems on sessions and on failed logins, at the logins of two people.
use trust_panel.Prelude.{
  ◌≡◌, ◌≢◌, refl, ◌-◌, ◌&&◌, true, false, not, none, some, List, [], ◌∷◌, any, if◌then◌else◌, ltb,
  leb, codes, text_eq, is_empty,
}
use trust_panel.Prelude.Int.{pos}
use trust_panel.Login.Throttle.{
  max_lock, no_entries, lock_for, retry_after, fail, success, shift_left,
}
use trust_panel.Login.Throttle.Lock.{doubled, lock_for-capped}
use trust_panel.Login.Throttle.Streaks.{
  Event, failed, passed, streak, capped, report_logins, retry_after-fail,
}
use trust_panel.Login.Sessions.{
  Manager, new_manager, create, validate_token, valid_csrf, expand_view, revoke_user,
  revoke_user_except,
}
use trust_panel.Login.Sessions.Runs.{SessionOp, opened, checked, viewed, run}
use trust_panel.Login.Sessions.Revocation.{
  opens, ran_out, revoke_user-ends, revoke_user_except-ends, create-holds,
}

abbrev tries : List Event
tries =
    failed (codes "al") 1
    ∷ (failed (codes "al") 2
        ∷ (failed (codes "bo") 3
            ∷ (failed (codes "al") 4
                ∷ (failed (codes "al") 5
                    ∷ (failed (codes "al") 6
                        ∷ (failed (codes "al") 7 ∷ (passed (codes "bo") ∷ [])))))))

lock_for-capped_example : lock_for 33 ≡ (if leb (doubled 33) max_lock then doubled 33 else max_lock)
lock_for-capped_example = lock_for-capped 33

retry_after-fail_example :
    retry_after (fail (report_logins no_entries tries) (codes "al") 8) (codes "al") 8
    ≡ (if ltb (streak (codes "al") 0 tries) 5 then 0 else capped (streak (codes "al") 0 tries - 5))
retry_after-fail_example = retry_after-fail tries (codes "al") 8

-- The seventh failure locks for four seconds.
seventh_failure :
    retry_after (fail (report_logins no_entries tries) (codes "al") 8) (codes "al") 8 ≡ 4000000000
unfolding retry_after fail success lock_for shift_left text_eq
seventh_failure = refl

abbrev visits : List SessionOp
visits =
    opened 10 (codes "al") (codes "t1") (codes "c1")
    ∷ (opened 11 (codes "al") (codes "t2") (codes "c2")
        ∷ (viewed 12 (codes "t2") true ∷ (opened 13 (codes "bo") (codes "t3") (codes "c3") ∷ [])))

abbrev afterwards : List SessionOp
afterwards = checked 20 (codes "t1") ∷ (opened 21 (codes "bo") (codes "t1") (codes "c4") ∷ [])

al_stays_out : any (opens (codes "al")) afterwards ≡ false
unfolding text_eq
al_stays_out = refl

revoke_user-ends_example :
    (validate_token
      (run (revoke_user (run (new_manager (pos 100)) visits) (codes "al")).0 afterwards)
      22
      (codes "t2")).1
    ≢ some (codes "al")
revoke_user-ends_example =
    revoke_user-ends (pos 100) visits afterwards (codes "al") (codes "t2") 22 al_stays_out

not_kept : text_eq (codes "t2") (codes "t1") ≡ false
unfolding text_eq
not_kept = refl

revoke_user_except-ends_example :
    (validate_token
      (run
        (revoke_user_except (run (new_manager (pos 100)) visits) (codes "al") (codes "t1")).0
        afterwards)
      22
      (codes "t2")).1
    ≢ some (codes "al")
revoke_user_except-ends_example =
    revoke_user_except-ends (pos 100) visits afterwards (codes "al") (codes "t1") (codes "t2") 22
      al_stays_out not_kept

abbrev opened_now : Manager
opened_now =
    (create (new_manager (pos 100)) 10 (codes "al") (some (codes "t")) (some (codes "c"))).0

create-holds_example :
    ((validate_token opened_now 50 (codes "t")).1
      ≡ (if ran_out (pos 100) 10 50 then none else some (codes "al")))
    × (valid_csrf opened_now 50 (codes "t") (codes "c") ≡ (
        not (ran_out (pos 100) 10 50)
        && (not (is_empty (codes "c")) && text_eq (codes "c") (codes "c"))))
    × (expand_view opened_now 50 (codes "t") ≡ false)
create-holds_example =
    create-holds (new_manager (pos 100)) 10 (codes "al") (codes "t") (codes "c") (codes "c") 50
