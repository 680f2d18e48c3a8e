-- ===== src/Memory/Chain.antt =====
-- Doubly linked chains of live, distinct nodes, and what writes do to them.
use linux_server_programming.Base.{
  ◌≡◌, refl, ◌≢◌, Bool, true, false, ◌||◌, Option, none, some, List, [], ◌∷◌, arith, ◌==◌,
  if◌then◌else◌, Bool-cases, inl, inr, ok, Returns, ◌∙◌, ne→==,
}
use linux_server_programming.Memory.{
  Ptr, null, Node, node, Store, write, load, set_value, set_prev, set_next, free, set_prev_if,
  bypass,
}

-- The pointers of a list's nodes with their values, in order.
abbrev pub Cells : Type 0 → Type 0
Cells A = List (Ptr × A)

module _ {A : Type 0} where
  abbrev pub has : Ptr → Cells A → Bool
  has a [] = false
  has a ((p, _) ∷ xs) = (a == p) || has a xs

  -- the pointer to the first node
  abbrev pub first : Cells A → Ptr
  first [] = null
  first ((p, _) ∷ _) = p

  -- From a node whose predecessor is `q`, the links lead through the distinct nodes `xs` to NULL.
  abbrev pub Chain : Store A → Ptr → Cells A → Type 0
  Chain h q [] = Unit
  Chain h q ((a, v) ∷ xs) =
      (a ≢ null) × (h a ≡ some (node v q (first xs))) × (has a xs ≡ false) × Chain h a xs

  -- the chain without the node at `p`
  abbrev pub erase : Ptr → Cells A → Cells A
  erase p [] = []
  erase p ((a, v) ∷ xs) = if p == a then xs else (a, v) ∷ erase p xs

  -- `g` differs from `h` at most at the nodes `xs`
  abbrev pub SameOutside : Cells A → Store A → Store A → Type 0
  SameOutside xs h g = (a : Ptr) → has a xs ≡ false → g a ≡ h a

  pub frame :
      {h g : Store A} (q : Ptr) (xs : Cells A)
      → Chain h q xs
      → ((a : Ptr) → has a xs ≡ true → g a ≡ h a)
      → Chain g q xs
  frame q [] c same = tt
  frame q ((a, v) ∷ xs) (live, at, new, c) same =
      (live, ground (arith, same a), new, frame a xs c λ b i. same b (ground arith))

  pub frame-write :
      (h : Store A) (q : Ptr) (xs : Cells A) (p : Ptr) (n : Option (Node A))
      → Chain h q xs
      → has p xs ≡ false
      → Chain (write h p n) q xs
  unfolding write
  frame-write h q xs p n c out = frame q xs c λ a i. ground arith

  pub load-ok : (h : Store A) (p : Ptr) {n : Node A} → p ≢ null → h p ≡ some n → load h p ≡ ok n
  unfolding load
  load-ok h p live at = rw (ne→== p null live, at)

  -- the links of the first node may be rewritten to a new predecessor
  pub set_prev_if-Chain :
      (h : Store A) (q r : Ptr) (xs : Cells A)
      → Chain h q xs
      → Returns (λ g. Chain g r xs × SameOutside xs h g) (set_prev_if h (first xs) r)
  unfolding set_prev_if set_prev load write
  set_prev_if-Chain h q r [] c = (h, refl, (tt, λ a o. refl))
  set_prev_if-Chain h q r ((a, v) ∷ xs) (live, at, new, c) = (
    write h a (some (node v r (first xs))),
    rw (ne→== a null live, at),
    ((live, ground arith, new, frame-write h a xs a _ c new), λ b o. ground arith),
  )

  pub set_next-ok :
      (h : Store A) (p q : Ptr) {n : Node A}
      → p ≢ null
      → h p ≡ some n
      → set_next h p q ≡ ok (write h p (some (record n { next = q })))
  unfolding set_next
  set_next-ok h p q live at = rw (load-ok h p live at)

  pub set_prev-ok :
      (h : Store A) (p q : Ptr) {n : Node A}
      → p ≢ null
      → h p ≡ some n
      → set_prev h p q ≡ ok (write h p (some (record n { prev = q })))
  unfolding set_prev
  set_prev-ok h p q live at = rw (load-ok h p live at)

  pub set_value-ok :
      (h : Store A) (p : Ptr) (v : A) {n : Node A}
      → p ≢ null
      → h p ≡ some n
      → set_value h p v ≡ ok (write h p (some (record n { value = v })))
  unfolding set_value
  set_value-ok h p v live at = rw (load-ok h p live at)

  pub free-ok :
      (h : Store A) (p : Ptr) {n : Node A}
      → p ≢ null
      → h p ≡ some n
      → free h p ≡ ok (write h p none)
  unfolding free
  free-ok h p live at = rw (load-ok h p live at)

  -- `bypass` takes the second node out of the chain, and writes only to the nodes that stay
  pub bypass-second :
      (h : Store A) (q p a : Ptr) (v w : A) (ys : Cells A)
      → Chain h q ((a, v) ∷ (p, w) ∷ ys)
      → Returns (λ g. Chain g q ((a, v) ∷ ys) × SameOutside ((a, v) ∷ ys) h g) (bypass h p)
  unfolding bypass
  bypass-second h q p a v w ys (live, at, new, (live', at', new', c)) =
      let h1 : Store A = write h a (some (node v q (first ys))) in
      let at1 : h1 p ≡ some (node w a (first ys)) = unfold write in ground arith in
      let same1 : (b : Ptr) → (b == a) ≡ false → h1 b ≡ h b = unfold write in ground arith in
      let own : h1 a ≡ some (node v q (first ys)) = unfold write in ground arith in
      let (g, run, (chain, same)) =
        set_prev_if-Chain h1 p a ys (frame-write h p ys a _ c (ground arith)) in
      (
        g,
        rw (load-ok h p live' at', set_next-ok h a (first ys) live at, load-ok h1 p live' at1) run,
        (
          (live, same a (ground arith) ∙ own, ground arith, chain),
          λ b o. same b (ground arith) ∙ same1 b (ground arith),
        ),
      )

  pub has-erase : (p b : Ptr) (xs : Cells A) → has b xs ≡ false → has b (erase p xs) ≡ false
  has-erase p b [] o = refl
  has-erase p b ((a, v) ∷ xs) o = ground (arith, has-erase p b xs)

  -- the nodes of a chain are distinct
  pub not-has-erase :
      (h : Store A) (q p : Ptr) (xs : Cells A) → Chain h q xs → has p (erase p xs) ≡ false
  not-has-erase h q p [] c = refl
  not-has-erase h q p ((a, v) ∷ xs) (live, at, new, c) = elim (Bool-cases (p == a)) [
    | inl e ↦ let is : p ≡ a = ground arith in rw (e, is) new
    | inr e ↦ rw (e, e) (not-has-erase h a p xs c)
  ]

  -- `bypass` takes any node but the first out of the chain
  pub bypass-Chain :
      (h : Store A) (q p a : Ptr) (v : A) (xs : Cells A)
      → Chain h q ((a, v) ∷ xs)
      → has p xs ≡ true
      → Returns
          (λ g. Chain g q ((a, v) ∷ erase p xs) × SameOutside ((a, v) ∷ erase p xs) h g)
          (bypass h p)
  bypass-Chain h q p a v [] c i = absurd (cc)
  bypass-Chain h q p a v ((b, w) ∷ ys) c i = elim (Bool-cases (p == b)) [
    | inl hit ↦ let same : p ≡ b = ground arith in rw (hit, same) (bypass-second h q b a v w ys c)
    | inr miss ↦
        let (live, at, new, rest) = c in
        let (g, run, (chain, same)) = bypass-Chain h a p b w ys rest (ground arith) in
        let out : has a ((b, w) ∷ erase p ys) ≡ false = ground (arith, has-erase p a ys) in
        rw miss (g, run, ((live, same a out ∙ at, out, chain), λ c o. same c (ground arith)))
  ]

  pub write_self : (h : Store A) (p : Ptr) (n : Option (Node A)) → write h p n p ≡ n
  unfolding write
  write_self h p n = ground arith

  pub write-other :
      (h : Store A) (p d : Ptr) (n : Option (Node A)) → (d == p) ≡ false → write h p n d ≡ h d
  unfolding write
  write-other h p d n o = rw o

  -- a node of a chain is not a node outside it
  pub differs : (t p : Ptr) (xs : Cells A) → has t xs ≡ false → has p xs ≡ true → (t == p) ≡ false
  differs t p xs out here = elim (Bool-cases (t == p)) [
    | inl e ↦ let is : t ≡ p = ground arith in absurd (cc (out, here, is))
    | inr e ↦ e
  ]

  has-tail :
      (d a : Ptr) (v : A) (xs : Cells A)
      → has d ((a, v) ∷ xs) ≡ false
      → (has d xs ≡ false) × ((d == a) ≡ false)
  has-tail d a v xs o = ground arith

  -- `bypass` and then `delete`
  pub unlink-Chain :
      (h : Store A) (q p a : Ptr) (v : A) (xs : Cells A)
      → Chain h q ((a, v) ∷ xs)
      → has p xs ≡ true
      → (p == a) ≡ false
      → Returns
          (λ g.
            (g p ≡ h p)
            × Chain (write g p none) q ((a, v) ∷ erase p xs)
            × SameOutside ((a, v) ∷ xs) h (write g p none))
          (bypass h p)
  unlink-Chain h q p a v xs c m other =
      let (g, run, (chain, same)) = bypass-Chain h q p a v xs c m in
      let out : has p ((a, v) ∷ erase p xs) ≡ false = rw other (not-has-erase h a p xs c.3) in
      (
        g,
        run,
        (
          same p out,
          frame-write g q ((a, v) ∷ erase p xs) p none chain out,
          λ d o.
              let (o', e) = has-tail d a v xs o in
              write-other g p d none (differs d p xs o' m) ∙ same d (rw e (has-erase p d xs o')),
        ),
      )
