-- ===== src/ChatServer/Serving.antt =====
-- The table and the descriptors of ChatServer.cpp, from its start on.
use linux_server_programming.Base.{
  true, false, ℕ, zero, suc, ◌+◌, ◌*◌, ◌≤◌, ◌<◌, ◌≡◌, refl, sym, ◌∙◌, ap, subst, arith, Bool, false,
  ◌&&◌, List, [], ◌∷◌, if◌then◌else◌, Bool-cases, inl, inr, ne→==, ==_refl, leb, not, ℤ, pos,
  negsuc,
}
use linux_server_programming.Process.{Event, event_at, ◌>>=◌, same_fd, is_neg, assert, argc}
use linux_server_programming.Process.Kernel.{
  arg-Throughout, bind-Throughout, done-Throughout, sys-Throughout, if-Throughout, assert-any,
  Throughout,
}
use linux_server_programming.Process.Files.{
  files, holds_first, drop_fd, IsOpen, AllOpen, IsNew, opened, fd_limit, Always,
}
use linux_server_programming.ChatServer.{
  user_limit, User, Chat, dispatch, serve_entry, serve_entries, reported, polled, event_loop, serve,
  main,
}
use linux_server_programming.ChatServer.Table.{IsTable, slot-ok, same-IsTable, new_chat-IsTable}
use linux_server_programming.ChatServer.Accepting.{
  Table, Entry, Grown, Fits, listen_held, serve_new-Always,
}
use linux_server_programming.ChatServer.Writing.{dispatch-Always}

module _ (f : ℕ) where
  -- the listening socket
  dispatch-first :
      (c : Chat) (l : List ℕ) (t : IsTable f l c)
      → Always (Entry f c.user_count) l (dispatch (pos f) c 0 (c.fds 0) (pos f))
  unfolding dispatch
  dispatch-first c l t =
      let (_, idle, here) = t.quiet in
      elim (Bool-cases (c.fds 0).readable) [
        | inl e ↦
            rw (==_refl f, e)
              (bind-Throughout files (Grown f c.user_count) (Entry f c.user_count) l _ _
                (serve_new-Always f l c t)
                (λ l' c1 (t1, grown).
                  done-Throughout files (Entry f c.user_count) l' (c1, false) (t1, grown)))
        | inr e ↦
            rw (==_refl f, e, idle, here)
              (if-Throughout files (Entry f c.user_count) l (c.fds 0).error _ _
                (λ _.
                  sys-Throughout files (Entry f c.user_count) l _ _ (listen_held f l c t) (λ r _.
                    done-Throughout files (Entry f c.user_count) l (c, false) (t, omega arith)))
                (λ _. done-Throughout files (Entry f c.user_count) l (c, false) (t, omega arith)))
      ]

  serve_entry-Always :
      (i : ℕ) (c : Chat) (l : List ℕ)
      → IsTable f l c
      → i ≤ c.user_count
      → Always (Entry f c.user_count) l (serve_entry (pos f) c i)
  unfolding serve_entry
  serve_entry-Always zero c l t h = rw (slot-ok c 0 (omega arith)) (
      subst (λ z. Always (Entry f c.user_count) l (dispatch (pos f) c 0 (c.fds 0) z))
        (ap pos (sym t.first) ∙ sym (t.known 0 h)) (dispatch-first c l t))
  serve_entry-Always (suc j) c l t h =
      let b = t.bound in
      let i = suc j in
      let other : (same_fd (pos (t.number i)) (pos f) && (c.fds i).readable) ≡ false =
        rw
          (ne→== (t.number i) f
            (λ q. let z = t.distinct i 0 h (omega arith) (q ∙ sym t.first) in omega arith))
          refl in
      rw (slot-ok c i (omega arith)) (
        subst (λ z. Always (Entry f c.user_count) l (dispatch (pos f) c i (c.fds i) z))
          (sym (t.known i h)) (dispatch-Always f c i l t (omega arith) h other))

  serve_entries-Always :
      (k i : ℕ) (l : List ℕ) (c : Chat)
      → IsTable f l c
      → i ≤ user_limit + 1
      → 2 * (user_limit + 1) + c.user_count < k + 2 * i
      → Always (Table f) l (serve_entries k i (pos f) c)
  unfolding serve_entries
  serve_entries-Always zero i l c t small enough = absurd (omega arith)
  serve_entries-Always (suc k) i l c t small enough =
      let b = t.bound in
      if-Throughout files (Table f) l (leb i c.user_count) _ _
        (λ e.
          let h : i ≤ c.user_count = ground arith in
          bind-Throughout files (Entry f c.user_count) (Table f) l _ _
            (serve_entry-Always i c l t h)
            (λ l' (c1, again) (t1, fits).
              elim again
                  as (λ a.
                    Fits c.user_count a c1.user_count
                    → Always (Table f) l' (serve_entries k (if a then i else i + 1) (pos f) c1)) [
                      | true ↦ λ one. serve_entries-Always k i l' c1 t1 small (omega arith)
                      | false ↦
                          λ one. serve_entries-Always k (i + 1) l' c1 t1 (omega arith) (omega arith)
                    ]
                fits))
        (λ _. done-Throughout files (Table f) l c t)

  reported-IsTable :
      (es : List Event) (c : Chat) (l : List ℕ) → IsTable f l c → IsTable f l (reported es c)
  unfolding reported
  reported-IsTable es c l t =
      let (deaf, idle, _) = t.quiet in
      let unhung : (b : Bool) → (c.fds 0).pollrdhup ≡ false → (b && (c.fds 0).pollrdhup) ≡ false =
        λ b e. ground arith in
      same-IsTable f l c _ t refl (λ j. refl) (deaf, idle, unhung (event_at 0 es).hang_up deaf)
        t.pointing

  polled-AllOpen :
      (n i : ℕ) (c : Chat) (l : List ℕ)
      → IsTable f l c
      → i + n ≤ c.user_count + 1
      → AllOpen l (polled n i c)
  polled-AllOpen zero i c l t h = tt
  polled-AllOpen (suc n) i c l t h = (
    subst (IsOpen l) (sym (t.known i (omega arith))) (t.held i (omega arith)),
    polled-AllOpen n (suc i) c l t (omega arith),
  )

  event_loop-Always :
      (rounds fuel : ℕ) (l : List ℕ) (c : Chat)
      → IsTable f l c
      → 3 * user_limit + 2 < fuel
      → Always (Table f) l (event_loop rounds fuel (pos f) c)
  unfolding event_loop
  event_loop-Always zero fuel l c t enough = unfold Throughout in tt
  event_loop-Always (suc k) fuel l c t enough =
      let b = t.bound in
      sys-Throughout files (Table f) l _ _ (polled-AllOpen (c.user_count + 1) 0 c l t (omega arith))
        (λ r _.
          if-Throughout files (Table f) l (is_neg r.ret) _ _
            (λ _. done-Throughout files (Table f) l c t)
            (λ _.
              bind-Throughout files (Table f) (Table f) l _ _
                (serve_entries-Always fuel 0 l _ (reported-IsTable r.events c l t) (omega arith)
                  (unfold reported in omega arith))
                (λ l' c1 t1. event_loop-Always k fuel l' c1 t1 enough)))

abbrev pub Ends : List ℕ → ℕ → Type 0
Ends _ _ = Unit

serve-Always :
    (rounds fuel port : ℕ) (users : ℕ → User) (f : ℕ)
    → f < fd_limit
    → 3 * user_limit + 2 < fuel
    → Always Ends (f ∷ []) (serve rounds fuel port users (pos f))
unfolding serve
serve-Always rounds fuel port users f small enough =
    let l = f ∷ [] in
    let held = holds_first f [] in
    sys-Throughout files Ends l _ _ held (λ b _. assert-any files Ends l _ _ (
      sys-Throughout files Ends l _ _ held (λ r _. assert-any files Ends l _ _ (
        bind-Throughout files (Table f) Ends l _ _
          (event_loop-Always f rounds fuel l _ (new_chat-IsTable f users small) enough)
          (λ l' c t.
            sys-Throughout files Ends l' _ _ (listen_held f l' c t)
              (λ _ _. done-Throughout files Ends (drop_fd f l') 0 tt))))))

-- what follows `socket`
bound-Always :
    (rounds fuel port : ℕ) (users : ℕ → User) (z : ℤ)
    → IsNew [] z
    → 3 * user_limit + 2 < fuel
    → Always Ends (opened [] z) (assert (not (is_neg z)) >>= λ _. serve rounds fuel port users z)
bound-Always rounds fuel port users (pos f) (_, small) enough =
    serve-Always rounds fuel port users f small enough
bound-Always rounds fuel port users (negsuc _) new enough = unfold Throughout in tt

pub main-Always :
    (rounds fuel : ℕ) (argv : List ℕ) (users : ℕ → User)
    → 3 * user_limit + 2 < fuel
    → Always Ends [] (main rounds fuel argv users)
unfolding main
main-Always rounds fuel argv users enough =
    if-Throughout files Ends [] (leb (argc argv) 2) _ _ (λ _. done-Throughout files Ends [] 1 tt)
      (λ few. arg-Throughout files Ends [] argv 2 _ (ground arith) (λ port.
        sys-Throughout files Ends [] _ _ tt
          (λ r new. bound-Always rounds fuel port users r.ret new enough)))
