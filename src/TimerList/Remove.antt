-- ===== src/TimerList/Remove.antt =====
-- `del_timer` of LST_Timer.h.
use linux_server_programming.Base.{
  ◌≡◌, ◌≢◌, ◌⊎◌, refl, ◌∙◌, true, false, none, some, [], ◌∷◌, arith, ◌==◌, Bool-cases, inl, inr,
  sym, subst, ok, Returns, ne→==, ==_refl,
}
use linux_server_programming.Memory.{
  Ptr, null, Store, Node, node, write, load, set_prev, set_next, set_prev_if, bypass,
}
use linux_server_programming.Memory.Chain
use linux_server_programming.Memory.Chain.{Cells, Chain, has, first, erase, SameOutside}
use linux_server_programming.TimerList.{UtilTimer, TimerList, del_timer}
use linux_server_programming.TimerList.Invariant.{last, IsTimerList, has-last}

-- A node `p` behind the first one, its predecessor, and whether it is the last.
record Neighbours (h : Store UtilTimer) (a p : Ptr) (xs : Cells UtilTimer) : Type 0 where
  own : Node UtilTimer
  before : Node UtilTimer
  live : p ≢ null
  at : h p ≡ some own
  before_live : own.prev ≢ null
  before_at : h own.prev ≡ some before
  apart : (p == own.prev) ≡ false
  place :
      ((own.next ≡ null) × (last a xs ≡ p) × (last a (erase p xs) ≡ own.prev))
      ⊎ ((own.next ≢ null) × ((p == last a xs) ≡ false) × (last a (erase p xs) ≡ last a xs))

Neighbours-first :
    (h : Store UtilTimer) (q a p : Ptr) (u x : UtilTimer) (ys : Cells UtilTimer)
    → Chain h q ((a, u) ∷ (p, x) ∷ ys)
    → Neighbours h a p ((p, x) ∷ ys)
Neighbours-first h q a p u x [] (la, ata, na, (lp, atp, np, c)) = record {
  own = node x a null;
  before = node u q p;
  live = lp;
  at = atp;
  before_live = la;
  before_at = ata;
  apart = ground arith;
  place = inl (refl, refl, rw (==_refl p));
}
Neighbours-first h q a p u x ((b, y) ∷ ys) (la, ata, na, (lp, atp, np, c)) = record {
  own = node x a b;
  before = node u q p;
  live = lp;
  at = atp;
  before_live = la;
  before_at = ata;
  apart = ground arith;
  place =
      inr (c.0, Chain.differs p (last b ys) ((b, y) ∷ ys) np (has-last b b y ys), rw (==_refl p));
}

neighbours :
    (h : Store UtilTimer) (q a p : Ptr) (u : UtilTimer) (xs : Cells UtilTimer)
    → Chain h q ((a, u) ∷ xs)
    → has p xs ≡ true
    → Neighbours h a p xs
neighbours h q a p u [] c m = absurd (cc)
neighbours h q a p u ((b, x) ∷ ys) c m = elim (Bool-cases (p == b)) [
  | inl hit ↦ let is : p ≡ b = ground arith in rw is (Neighbours-first h q a b u x ys c)
  | inr miss ↦
      let n = neighbours h a b p x ys c.3 (ground arith) in
      record {
        own = n.own;
        before = n.before;
        live = n.live;
        at = n.at;
        before_live = n.before_live;
        before_at = n.before_at;
        apart = n.apart;
        place = rw miss (n.place);
      }
]

module _ (h : Store UtilTimer) (a p : Ptr) (xs : Cells UtilTimer) (n : Neighbours h a p xs) where
  -- the store after the predecessor has been linked to the successor
  abbrev joined : Store UtilTimer
  joined = write h n.own.prev (some (record n.before { next = n.own.next }))

  joined-at : joined p ≡ some n.own
  unfolding write
  joined-at = let out = n.apart in let at = n.at in rw out at

  bypass-joined : bypass h p ≡ set_prev_if joined n.own.next n.own.prev
  unfolding bypass
  bypass-joined = rw (
    Chain.load-ok h p n.live n.at,
    Chain.set_next-ok h n.own.prev n.own.next n.before_live n.before_at,
    Chain.load-ok joined p n.live joined-at,
  )

module _ (w : TimerList) (a p : Ptr) (xs : Cells UtilTimer) (n : Neighbours w.store a p xs)
    (g : Store UtilTimer)
    (linked : set_prev_if (joined w.store a p xs n) n.own.next n.own.prev ≡ ok g)
    (own : g p ≡ some n.own) (not_head : (p == w.head) ≡ false) where
  join_next : set_next w.store n.own.prev n.own.next ≡ ok (joined w.store a p xs n)
  join_next = Chain.set_next-ok w.store n.own.prev n.own.next n.before_live n.before_at

  del_timer-tail :
      n.own.next ≡ null
      → p ≡ w.tail
      → del_timer w p ≡ ok (record w { tail = n.own.prev; store = write g p none })
  unfolding del_timer
  del_timer-tail end here =
      let skip : set_prev_if (joined w.store a p xs n) n.own.next n.own.prev
          ≡ ok (joined w.store a p xs n) =
        unfold set_prev_if in rw end refl in
      let cut : set_next w.store n.own.prev null ≡ ok g =
        subst (λ z. set_next w.store n.own.prev z ≡ ok g) end (join_next ∙ sym skip ∙ linked) in
      let is_tail : (p == w.tail) ≡ true = ground arith in
      let at : load w.store w.tail ≡ ok n.own =
        subst (λ z. load w.store z ≡ ok n.own) here (Chain.load-ok w.store p n.live n.at) in
      rw (ne→== p null n.live, not_head, is_tail, at, cut, Chain.free-ok g p n.live own)

  del_timer-middle :
      n.own.next ≢ null
      → (p == w.tail) ≡ false
      → del_timer w p ≡ ok (record w { store = write g p none })
  unfolding del_timer
  del_timer-middle more not_tail =
      let back : set_prev (joined w.store a p xs n) n.own.next n.own.prev ≡ ok g =
        unfold set_prev_if in rw (ne→== n.own.next null more) at linked in
      rw (
        ne→== p null n.live,
        not_head,
        not_tail,
        Chain.load-ok w.store p n.live n.at,
        join_next,
        Chain.load-ok (joined w.store a p xs n) p n.live (joined-at w.store a p xs n),
        back,
        Chain.free-ok g p n.live own,
      )

module _ (w : TimerList) (p a : Ptr) (u : UtilTimer) (xs : Cells UtilTimer)
    (is : IsTimerList ((a, u) ∷ xs) w) where
  -- What `del_timer` promises.
  abbrev pub Removed : Cells UtilTimer → TimerList → Type 0
  Removed ys w' =
      IsTimerList ys w'
      × (w'.store p ≡ none)
      × (w'.calls ≡ w.calls)
      × SameOutside ((a, u) ∷ xs) w.store w'.store

  del_timer-behind :
      (p == a) ≡ false → has p xs ≡ true → Returns (Removed ((a, u) ∷ erase p xs)) (del_timer w p)
  del_timer-behind other m =
      let n = neighbours w.store null a p u xs is.chain m in
      let (g, run, (own, chain, same)) =
        Chain.unlink-Chain w.store null p a u xs is.chain m other in
      let gone = Chain.write_self g p none in
      let not_head : (p == w.head) ≡ false = rw (is.head) other in
      let linked = sym (bypass-joined w.store a p xs n) ∙ run in
      elim (n.place) [
        | inl (end, here, prev) ↦ (
          record w { tail = n.own.prev; store = write g p none },
          del_timer-tail w a p xs n g linked (own ∙ n.at) not_head end (sym here ∙ sym (is.tail)),
          (record { head = is.head; chain = chain; tail = sym prev }, gone, refl, same),
        )
        | inr (more, elsewhere, kept_last) ↦ (
          record w { store = write g p none },
          del_timer-middle w a p xs n g linked (own ∙ n.at) not_head more (rw (is.tail) elsewhere),
          (
            record { head = is.head; chain = chain; tail = is.tail ∙ sym kept_last },
            gone,
            refl,
            same,
          ),
        )
      ]

-- the only timer
del_timer-only :
    (w : TimerList) (a : Ptr) (u : UtilTimer) (is : IsTimerList ((a, u) ∷ []) w)
    → Returns (Removed w a a u [] is []) (del_timer w a)
unfolding del_timer
del_timer-only w a u is =
    let (la, ata, na, c) = is.chain in
    let at_head : (a == w.head) ≡ true = rw (is.head) (==_refl a) in
    let at_tail : (a == w.tail) ≡ true = rw (is.tail) (==_refl a) in
    (
      record { head = null; tail = null; store = write w.store a none; calls = w.calls },
      rw (ne→== a null la, at_head, at_tail, Chain.free-ok w.store a la ata),
      (
        record { head = refl; chain = tt; tail = refl },
        Chain.write_self w.store a none,
        refl,
        λ d o. Chain.write-other w.store a d none (ground arith),
      ),
    )

-- the head of a longer list
del_timer-front :
    (w : TimerList) (a b : Ptr) (u x : UtilTimer) (xs : Cells UtilTimer)
    (is : IsTimerList ((a, u) ∷ (b, x) ∷ xs) w)
    → Returns (Removed w a a u ((b, x) ∷ xs) is ((b, x) ∷ xs)) (del_timer w a)
unfolding del_timer
del_timer-front w a b u x xs is =
    let (la, ata, na, c) = is.chain in
    let (g, run, (chain, same)) = Chain.set_prev_if-Chain w.store a null ((b, x) ∷ xs) c in
    let back : set_prev w.store b null ≡ ok g =
      unfold set_prev_if in rw (ne→== b null c.0) at run in
    let own = same a na ∙ ata in
    let at_head : (a == w.head) ≡ true = rw (is.head) (==_refl a) in
    let not_tail : (a == w.tail) ≡ false =
      rw (is.tail) (Chain.differs a (last b xs) ((b, x) ∷ xs) na (has-last b b x xs)) in
    let at : load w.store w.head ≡ ok (node u null b) =
      subst (λ z. load w.store z ≡ ok (node u null b)) (sym is.head)
        (Chain.load-ok w.store a la ata) in
    (
      record w { head = b; store = write g a none },
      rw (ne→== a null la, at_head, not_tail, at, back, Chain.free-ok g a la own),
      (
        record {
          head = refl;
          chain = Chain.frame-write g null ((b, x) ∷ xs) a none chain na;
          tail = is.tail;
        },
        Chain.write_self g a none,
        refl,
        λ d o. Chain.write-other g a d none (ground arith) ∙ same d (ground arith),
      ),
    )

-- `del_timer` of a timer of the list takes exactly its node out of the list and deletes it.
pub del_timer-Removed :
    (w : TimerList) (p : Ptr) (a : Ptr) (u : UtilTimer) (xs : Cells UtilTimer)
    (is : IsTimerList ((a, u) ∷ xs) w)
    → has p ((a, u) ∷ xs) ≡ true
    → Returns (Removed w p a u xs is (erase p ((a, u) ∷ xs))) (del_timer w p)
del_timer-Removed w p a u xs is m = elim (Bool-cases (p == a)) [
  | inl e ↦ let same : p ≡ a = ground arith in rw (e, same) (del_timer-head xs is)
  | inr e ↦ rw e (del_timer-behind w p a u xs is e (ground arith))
]
  where
    del_timer-head :
        (xs : Cells UtilTimer) (is : IsTimerList ((a, u) ∷ xs) w)
        → Returns (Removed w a a u xs is xs) (del_timer w a)
    del_timer-head [] is = del_timer-only w a u is
    del_timer-head ((b, x) ∷ xs) is = del_timer-front w a b u x xs is
