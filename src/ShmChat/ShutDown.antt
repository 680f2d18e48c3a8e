-- ===== src/ShmChat/ShutDown.antt =====
-- How the signals of ShmChat.cpp stop the server.
use linux_server_programming.Base.{
  ℕ, zero, suc, ◌+◌, ◌≤◌, ◌<◌, ◌≡◌, refl, ap₂, ◌∙◌, arith, ◌==◌, ◌||◌, ◌&&◌, ◌↔◌, true, false, List,
  [], ◌∷◌, ◌++◌, Bool-cases, inl, inr, Returns, length, ne→==, ok, sym, append_assoc, append-nil,
  length-append,
}
use linux_server_programming.ShmChat.{
  Client, Action, kill_child, Server, sigchld, sigterm, user_limit, perform, kill_users, shut_down,
  handle_signal, handle_signals, Signal,
}
use linux_server_programming.ShmChat.Invariant.{IsServer, IsUser, user-ok}
use linux_server_programming.ShmChat.ReapAll.{
  has_pid, Children, Children-same, Children-front, Children-rest, reap_all-ReapedAll,
}

-- the signals to the children of users `i` to `i + k - 1`
abbrev pub kills : (k i : ℕ) → (ℕ → Client) → List Action
kills zero i us = []
kills (suc k) i us = kill_child ((us i).pid) ∷ kills k (suc i) us

kill_users-kills :
    (k i : ℕ) (w : Server)
    → i + k ≤ user_limit
    → kill_users k i w ≡ ok (perform w (kills k i w.users))
unfolding kill_users
kill_users-kills zero i w h = rw (append-nil w.actions)
kill_users-kills (suc k) i w h =
    let w1 = perform w (kill_child ((w.users i).pid) ∷ []) in
    let rest = kill_users-kills k (suc i) w1 (omega arith) in
    rw (
      user-ok w i (omega arith),
      rest,
      append_assoc w.actions (kill_child ((w.users i).pid) ∷ []) (kills k (suc i) w.users),
    )

stopped-IsServer : (w : Server) → IsServer w → IsServer (record w { stop_server = true })
stopped-IsServer w wf = record { bound = wf.bound; small = wf.small; mapped = wf.mapped }

-- SIGCHLD, with distinct children of users ended, removes exactly their users. It stops the server
-- just where the server is terminating and these were all of its users.
pub handle_signal-sigchld :
    (w : Server) (pids : List ℕ)
    → IsServer w
    → Children w pids
    → Returns
        (λ w'.
          IsServer w'
          × ((v : Client) → IsUser w' v ↔ (IsUser w v × (has_pid v.pid pids ≡ false)))
          × (w'.user_count + length pids ≡ w.user_count)
          × (w'.terminate ≡ w.terminate)
          × (w'.stop_server ≡ ((w.terminate && (w.user_count == length pids)) || w.stop_server)))
        (handle_signal (sigchld pids) w)
unfolding handle_signal
handle_signal-sigchld w pids wf cs =
    let (w1, run, all) = reap_all-ReapedAll pids w wf cs in
    let size = all.size in
    let same : (w1.user_count == 0) ≡ (w.user_count == length pids) = ground arith in
    let now : (w1.terminate && (w1.user_count == 0))
        ≡ (w.terminate && (w.user_count == length pids)) =
      ap₂ (λ a b. a && b) all.terminate same in
    elim (Bool-cases (w1.terminate && (w1.user_count == 0))) [
      | inl e ↦
          let stops = sym now ∙ e in
          (
            record w1 { stop_server = true },
            rw (run, e),
            (
              stopped-IsServer w1 all.valid,
              (λ v. (
                (λ is.
                    (all.present v).0
                      (record { index = is.index; below = is.below; entry = is.entry })),
                λ old.
                    let is = (all.present v).1 old in
                    record { index = is.index; below = is.below; entry = is.entry },
              )),
              size,
              all.terminate,
              rw stops,
            ),
          )
      | inr e ↦
          let stays = sym now ∙ e in
          (w1, rw (run, e), (all.valid, all.present, size, all.terminate, rw stays all.stop_server))
    ]

-- one SIGCHLD after another, each with the children that have ended
abbrev pub sigchlds : List (List ℕ) → List Signal
sigchlds [] = []
sigchlds (g ∷ gs) = sigchld g ∷ sigchlds gs

abbrev pub all_of : List (List ℕ) → List ℕ
all_of [] = []
all_of (g ∷ gs) = g ++ all_of gs

handle_signals-sigchlds :
    (gs : List (List ℕ)) (w : Server)
    → IsServer w
    → w.terminate ≡ true
    → w.stop_server ≡ (w.user_count == 0)
    → Children w (all_of gs)
    → Returns
        (λ w'.
          (w'.terminate ≡ true)
          × (w'.user_count + length (all_of gs) ≡ w.user_count)
          × (w'.stop_server ≡ (w'.user_count == 0)))
        (handle_signals (sigchlds gs) w)
unfolding handle_signals
handle_signals-sigchlds [] w wf ending at cs = (w, refl, (ending, omega arith, at))
handle_signals-sigchlds (g ∷ gs) w wf ending at cs =
    let rest = all_of gs in
    let (w1, run1, (wf1, present, n, t, stop)) =
      handle_signal-sigchld w g wf (Children-front w g rest cs) in
    let at1 : w1.stop_server ≡ (w1.user_count == 0) = ground arith in
    let (w2, run2, (ending2, n2, at2)) =
      handle_signals-sigchlds gs w1 wf1 (t ∙ ending) at1
        (Children-rest w w1 g rest (λ v is o. (present v).1 (is, o)) cs) in
    let both = length-append g rest in (w2, rw run1 run2, (ending2, omega arith, at2))

pub shut_down-stops :
    (w : Server) (gs : List (List ℕ))
    → IsServer w
    → 0 < w.user_count
    → w.stop_server ≡ false
    → Children w (all_of gs)
    → Returns
        (λ w1.
          (w1.actions ≡ w.actions ++ kills w.user_count 0 w.users)
          × (w1.stop_server ≡ false)
          × Returns
              (λ w2.
                (w2.terminate ≡ true)
                × (w2.user_count + length (all_of gs) ≡ w.user_count)
                × (w2.stop_server ≡ (length (all_of gs) == w.user_count)))
              (handle_signals (sigchlds gs) w1))
        (handle_signal sigterm w)
unfolding handle_signal shut_down
shut_down-stops w gs wf h going cs =
    let b = wf.bound in
    let w1 : Server = record w {
      actions = w.actions ++ kills w.user_count 0 w.users;
      terminate = true;
    } in
    let wf1 : IsServer w1 = record { bound = wf.bound; small = wf.small; mapped = wf.mapped } in
    let some_left : (w.user_count == 0) ≡ false = ne→== w.user_count 0 (omega arith) in
    let (w2, run, (t, n, stop)) = handle_signals-sigchlds gs w1 wf1 refl (going ∙ sym some_left) (
      Children-same w w1 (all_of gs)
        (λ u is. record { index = is.index; below = is.below; entry = is.entry }) cs) in
    (
      w1,
      rw (some_left, kill_users-kills w.user_count 0 w (omega arith)),
      (refl, going, (w2, run, (t, n, ground arith))),
    )

-- a request to shut down keeps the table
pub shut_down-IsServer : (w : Server) → IsServer w → Returns IsServer (shut_down w)
unfolding shut_down
shut_down-IsServer w wf =
    let b = wf.bound in
    let signalled : Server = record w {
      actions = w.actions ++ kills w.user_count 0 w.users;
      terminate = true;
    } in
    elim (Bool-cases (w.user_count == 0)) [
      | inl e ↦ (record w { stop_server = true }, rw e, stopped-IsServer w wf)
      | inr e ↦ (
        signalled,
        rw (e, kill_users-kills w.user_count 0 w (omega arith)),
        record { bound = wf.bound; small = wf.small; mapped = wf.mapped },
      )
    ]
