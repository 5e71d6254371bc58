-- ===== src/Heap/Counting.antt =====
-- Reference counted objects at addresses: the scheme that buffers, events and arenas share.
use metal_graph.Base.{
  ℕ, ◌+◌, ◌-◌, ◌%◌, ◌^◌, ◌<◌, ◌≡◌, refl, ap, sym, ◌∙◌, true, ◌==◌, ltb, if◌then◌else◌, Option, none,
  some, arith, Bool-cases, inl, inr, ==_iff,
}
use native.Mathlib.Decide.{dec_lt}

-- An object, or nothing, at each address.
abbrev pub Table : Type 0 → Type 0
Table A = ℕ → Option A

pub record Counted (A : Type 0) : Type 0 where
  pub ref_count : A → ℕ
  pub with_ref_count : A → ℕ → A
  pub ref_count-with : (a : A) (n : ℕ) → ref_count (with_ref_count a n) ≡ n
  pub with-with : (a : A) (m n : ℕ) → with_ref_count (with_ref_count a m) n ≡ with_ref_count a n
  pub with_self : (a : A) → with_ref_count a (ref_count a) ≡ a

abbrev pub update : {A : Type 0} → Table A → ℕ → Option A → Table A
update t p v q = if p == q then v else t q

-- `uint32_t` counters.
abbrev pub word32 : ℕ
word32 = 2 ^ 32

-- 1 at the address itself.
abbrev pub one_at : ℕ → ℕ → ℕ
one_at p q = if p == q then 1 else 0

module _ {A : Type 0} ⦃c : Counted A⦄ where
  -- `if (object) object->ref_count++;`
  unfoldable pub retain : Option ℕ → Table A → Option (Table A)
  retain none t = some t
  retain (some p) t = elim (t p) [
    | none ↦ none
    | some a ↦ some (update t p (some (c.with_ref_count a ((c.ref_count a + 1) % word32))))
  ]

  -- Releases one reference, and returns the object too if that was its last.
  unfoldable pub release : Option ℕ → Table A → Option (Table A × Option A)
  release none t = some (t, none)
  release (some p) t = elim (t p) [
    | none ↦ none
    | some a ↦
        if ltb 1 (c.ref_count a)
        then some (update t p (some (c.with_ref_count a (c.ref_count a - 1))), none)
        else some (update t p none, some a)
  ]

  abbrev pub object_refs : Option A → ℕ
  object_refs none = 0
  object_refs (some a) = c.ref_count a

  -- The references to the object at an address; 0 if there is none.
  abbrev pub refs : Table A → ℕ → ℕ
  refs t p = object_refs (t p)

  -- Every object of the second table is one of the first, but for its count.
  abbrev pub Kept : Table A → Table A → Type 0
  Kept t u =
      (q : ℕ) (b : A)
      → u q ≡ some b
      → (a : A) × (t q ≡ some a) × (c.with_ref_count a (c.ref_count b) ≡ b)

  pub Kept-refl : (t : Table A) → Kept t t
  Kept-refl t q b e = (b, e, c.with_self b)

  pub Kept-trans : {t u v : Table A} → Kept t u → Kept u v → Kept t v
  Kept-trans f g q b e =
      let (m, em, rm) = g q b e in
      let (a, ea, ra) = f q m em in
      (
        a,
        ea,
        sym (c.with-with a (c.ref_count m) (c.ref_count b))
            ∙ ap (λ x. c.with_ref_count x (c.ref_count b)) ra
            ∙ rm,
      )

  pub live_of_refs :
      (o : Option A) → 0 < object_refs o → (a : A) × (o ≡ some a) × (c.ref_count a ≡ object_refs o)
  live_of_refs none h = elim h [ ]
  live_of_refs (some a) h = (a, refl, refl)

  update-Kept :
      (t : Table A) (p n : ℕ) (a : A)
      → t p ≡ some a
      → Kept t (update t p (some (c.with_ref_count a n)))
  update-Kept t p n a e q b h = elim (Bool-cases (p == q)) [
    | inl s ↦
        let same : some (c.with_ref_count a n) ≡ some b = rw s at h in
        let b_is : c.with_ref_count a n ≡ b = cc in
        (
          a,
          rw (← (==_iff p q).0 s) e,
          ap (c.with_ref_count a) (sym (ap c.ref_count b_is) ∙ c.ref_count-with a n) ∙ b_is,
        )
    | inr d ↦ Kept-refl t q b (rw d at h)
  ]

  refs-update :
      (t : Table A) (p n q : ℕ) (a : A)
      → refs (update t p (some (c.with_ref_count a n))) q ≡ (if p == q then n else refs t q)
  refs-update t p n q a = elim (Bool-cases (p == q)) [
    | inl s ↦ rw s (c.ref_count-with a n)
    | inr d ↦ rw d
  ]

  pub retain_lem :
      (t : Table A) (p : ℕ)
      → 0 < refs t p
      → refs t p + 1 < word32
      → (u : Table A) × (retain (some p) t ≡ some u)
        × ((q : ℕ) → refs u q ≡ refs t q + one_at p q)
        × Kept t u
  unfolding retain
  retain_lem t p h k =
      let (a, e, r) = live_of_refs (t p) h in
      let n = (c.ref_count a + 1) % word32 in
      let m : n ≡ refs t p + 1 = omega arith in
      (
        update t p (some (c.with_ref_count a n)),
        rw (e, retain),
        λ q. refs-update t p n q a ∙ counts n m q,
        update-Kept t p n a e,
      )
    where
      counts :
          (n : ℕ)
          → n ≡ refs t p + 1
          → (q : ℕ) → (if p == q then n else refs t q) ≡ refs t q + one_at p q
      counts n m q = elim (Bool-cases (p == q)) [
        | inl s ↦ rw (s, m, (==_iff p q).0 s)
        | inr d ↦ rw d (omega arith)
      ]

  refs-drop :
      (t : Table A) (p q : ℕ) (a : A)
      → t p ≡ some a
      → c.ref_count a ≡ 1
      → refs (update t p none) q + one_at p q ≡ refs t q
  refs-drop t p q a e one = elim (Bool-cases (p == q)) [
    | inl s ↦ rw (s, ← (==_iff p q).0 s, e, one)
    | inr d ↦ rw d (omega arith)
  ]

  drop-Kept : (t : Table A) (p : ℕ) → Kept t (update t p none)
  drop-Kept t p q b h = elim (Bool-cases (p == q)) [
    | inl s ↦ let same : none ≡ some b = rw s at h in cc
    | inr d ↦ Kept-refl t q b (rw d at h)
  ]

  -- What a release does to the table.
  pub record Released (t : Table A) (p : ℕ) (u : Table A) : Type 0 where
    pub counts : (q : ℕ) → refs u q + one_at p q ≡ refs t q
    pub kept : Kept t u

  release-drop :
      (t : Table A) (p : ℕ) (a : A)
      → t p ≡ some a
      → c.ref_count a ≡ 1
      → (u : Table A) × (gone : Option A) × (release (some p) t ≡ some (u, gone)) × Released t p u
  unfolding release
  release-drop t p a e one = (
    update t p none,
    some a,
    rw (e, release, one),
    record { counts = λ q. refs-drop t p q a e one; kept = drop-Kept t p },
  )

  release-keep :
      (t : Table A) (p : ℕ) (a : A)
      → t p ≡ some a
      → 1 < c.ref_count a
      → (u : Table A) × (gone : Option A) × (release (some p) t ≡ some (u, gone)) × Released t p u
  unfolding release
  release-keep t p a e more =
      let n = c.ref_count a - 1 in
      let test : ltb 1 (c.ref_count a) ≡ true = ground arith in
      (
        update t p (some (c.with_ref_count a n)),
        none,
        rw (e, release, test),
        record {
          counts = λ q. rw (refs-update t p n q a) (counts q);
          kept = update-Kept t p n a e;
        },
      )
    where
      counts : (q : ℕ) → (if p == q then c.ref_count a - 1 else refs t q) + one_at p q ≡ refs t q
      counts q = elim (Bool-cases (p == q)) [
        | inl s ↦ rw (s, ← (==_iff p q).0 s, e) (omega arith)
        | inr d ↦ rw d (omega arith)
      ]

  -- A release of a live object succeeds; with the last reference the object goes.
  pub release_lem :
      (t : Table A) (p : ℕ)
      → 0 < refs t p
      → (u : Table A) × (gone : Option A) × (release (some p) t ≡ some (u, gone)) × Released t p u
  release_lem t p h =
      let (a, e, r) = live_of_refs (t p) h in
      elim (dec_lt 1 (c.ref_count a)) [
        | yes more ↦ release-keep t p a e more
        | no last ↦ release-drop t p a e (omega arith)
      ]
