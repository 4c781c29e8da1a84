-- ===== src/Manager/Sessions/Leaks.antt =====
-- src/manager.rs: where a session and what runs for it come apart.
use p2p_core.Base.{
  ℕ, All, List, String, [], arith, false, none, refl, some, str_eq, true, ◌+◌, ◌==◌, ◌∷◌, ◌≡◌,
  Option, ap, ◌∙◌,
}
use p2p_core.Text.{trim}
use p2p_core.Manager.Sessions.Owned.{member}
use p2p_core.Manager.Sessions.{
  done, failed, World, host, HostControl, SessionRuntime, reset_session, without, without_all,
  end_session,
}
use p2p_core.Manager.Sessions.Hosting.{
  HostArgs, HostNet, hosting_status, open_host, start_hosting, start_hosting_inner, stop_hosting,
}
use p2p_core.Manager.Sessions.Owned.{IsOwned, reset_session-IsIdle}
use p2p_core.Net.{SocketAddr}
use p2p_core.Manager.Sessions.Commands.{commit_prepared_client_connect, put_back}
use p2p_core.Manager.{is_host}

end_session-none : (o : Option SessionRuntime) (w : World) → o ≡ none → end_session o w ≡ w
unfolding end_session
end_session-none none w e = refl
end_session-none (some r) w e = cc

-- Stopping where there is no session ends no task.
stop_hosting-none :
    (w : World)
    → w.session ≡ none
    → ((stop_hosting w).session ≡ none) × ((stop_hosting w).tasks ≡ w.tasks)
unfolding stop_hosting reset_session
stop_hosting-none w e =
    let same = end_session-none w.session w e in
    (ap (λ v. v.session) same ∙ e, ap (λ v. v.tasks) same)

module _ (a : HostArgs) (net : HostNet) (w : World) (owned : IsOwned w)
    (named : str_eq (trim a.room_name) "" ≡ false) (port : (a.local_port == 0) ≡ false) where
  -- A host that starts e4mc and gets no socket leaves the task of e4mc, which no session owns and which stopping does not end.
  pub start_hosting-leaks :
      (e : String)
      → a.enable_e4mc ≡ true
      → net.bound ≡ failed e
      → ((stop_hosting (start_hosting a net w).1).session ≡ none)
        × ((stop_hosting (start_hosting a net w).1).tasks ≡ ((reset_session w).fresh + 1) ∷ [])
  unfolding start_hosting start_hosting_inner
  start_hosting-leaks e on unbound =
      let idle = reset_session-IsIdle w owned in
      let (no_session, same_tasks) =
        stop_hosting-none (start_hosting a net w).1
          (rw (named, port, on, unbound) idle.no_session) in
      let task : (start_hosting a net w).1.tasks ≡ ((reset_session w).fresh + 1) ∷ [] =
        rw (named, port, on, unbound, idle.no_tasks) refl in
      (no_session, same_tasks ∙ task)

  -- A host that gets its socket and its endpoint shows the same status whatever the error of the STUN discovery was: the log of it is overwritten.
  pub start_hosting-forgets :
      (addr : SocketAddr) (e e' : String)
      → net.bound ≡ done addr
      → net.endpoint ≡ done tt
      → (start_hosting a (record net { public_addr = failed e }) w).1.status
        ≡ (start_hosting a (record net { public_addr = failed e' }) w).1.status
  unfolding start_hosting start_hosting_inner hosting_status open_host
  start_hosting-forgets addr e e' bound made = rw (named, port, bound, made) refl

member-without : (t k : ℕ) (ts : List ℕ) → member t ts ≡ false → member t (without k ts) ≡ false
member-without t k [] h = refl
member-without t k (i ∷ is) h = ground (arith, member-without t k is)

member-without_all :
    (t : ℕ) (ks ts : List ℕ) → member t ts ≡ false → member t (without_all ks ts) ≡ false
member-without_all t [] ts h = h
member-without_all t (k ∷ ks) ts h =
    member-without_all t ks (without k ts) (member-without t k ts h)

member-without_self : (t : ℕ) (ts : List ℕ) → member t (without t ts) ≡ false
member-without_self t [] = refl
member-without_self t (i ∷ is) = ground (arith, member-without_self t is)

without_all-gone : (ks ts : List ℕ) → All (λ t. member t (without_all ks ts) ≡ false) ks
without_all-gone [] ts = tt
without_all-gone (k ∷ ks) ts = (
  member-without_all k ks (without k ts) (member-without_self k ts),
  without_all-gone ks (without k ts),
)

-- `commit_prepared_client_connect` on a session that has no prepared client fails and leaves the status and the session, but aborts the session's tasks: on a host, the one that accepts connections and the one that publishes the room.
pub commit-aborts :
    (w : World) (r : SessionRuntime) (h : HostControl)
    → w.session ≡ some r
    → r.control ≡ host h
    → ((commit_prepared_client_connect w).0 ≡ failed "клиентский endpoint не подготовлен")
      × ((commit_prepared_client_connect w).1.status ≡ w.status)
      × ((commit_prepared_client_connect w).1.session ≡ some (record r { tasks = [] }))
      × All (λ t. member t (commit_prepared_client_connect w).1.tasks ≡ false) r.tasks
unfolding commit_prepared_client_connect put_back
commit-aborts w r h there is_host =
    rw (there, is_host) (refl, refl, refl, without_all-gone r.tasks w.tasks)
