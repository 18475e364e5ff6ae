-- ===== src/Apps/Deploy/Commits.antt =====
-- The commit that a deploy has marked as pending on GitHub, kept under the deploy's task.
use fabroku_back_end.Base.{◌+◌, String, ◌≡◌, none, some, arith, str_eq, eq_iff, if◌then◌else◌}
use fabroku_back_end.Base.Dict.{lookup, insert, lookup-insert, lookup-erase}
use fabroku_back_end.Runtime.World.{World, Cached}
use fabroku_back_end.Runtime.Effects.{ok}
use fabroku_back_end.Apps.Deploy.{
  put_commit_check, pop_pending_commit_status, pending_commit_status_ttl_seconds,
}

-- A deploy that is cancelled at once finds the commit that it has marked, and only once: taking it
-- removes it, and no commit of another deploy.
pop-put_commit_check :
    (t sha j : String) (w : World)
    → let (r, w') = pop_pending_commit_status t (put_commit_check t sha w).1 in
      (r ≡ ok (some sha))
      × (lookup j w'.commit_checks ≡ (if str_eq t j then none else lookup j w.commit_checks))
unfolding put_commit_check pop_pending_commit_status
pop-put_commit_check t sha j w =
    let entry : Cached String = record {
      value = sha;
      deadline = w.clock + pending_commit_status_ttl_seconds;
    } in
    let checks = insert t entry w.commit_checks in
    (
      ground (arith, lookup-insert t t entry w.commit_checks, eq_iff t t),
      ground (arith, lookup-erase t j checks, lookup-insert t j entry w.commit_checks),
    )
