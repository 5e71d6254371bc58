-- ===== src/Exec/Replaced.antt =====
-- What the loops of src/core/patch.c over the bindings of a dispatch do to the list: the first binding of
-- an index is replaced.
use metal_graph.Base.{
  ℕ, ◌≡◌, ◌≢◌, refl, ap, ◌==◌, Option, none, some, List, [], ◌∷◌, ◌++◌, All, arith, Bool-cases, inl,
  inr,
}
use metal_graph.Outcome.{Outcome, done, failed, fault}
use metal_graph.Node.{BufferBinding, ScalarBinding}
use metal_graph.Exec.PatchDispatch.{Rebound, keep_first, rebind, rescale}

-- `ys` is `xs` with the first item of the index replaced, and `P` holds of that item.
pub record Replaced {A : Type 0} (key : A → ℕ) (index : ℕ) (P : A → Type 0) (new : A → A)
    (xs ys : List A) : Type 0 where
  pub before : List A
  pub old : A
  pub after : List A
  pub was : xs ≡ before ++ old ∷ after
  pub becomes : ys ≡ before ++ new old ∷ after
  pub others : All (λ (x : A). key x ≢ index) before
  pub key_is : key old ≡ index
  pub fits : P old

Replaced-cons :
    {A : Type 0} (key : A → ℕ) (index : ℕ) (P : A → Type 0) (new : A → A) (x : A) (xs ys : List A)
    → key x ≢ index
    → Replaced key index P new xs ys
    → Replaced key index P new (x ∷ xs) (x ∷ ys)
Replaced-cons key index P new x xs ys ne r = record {
  before = x ∷ r.before;
  old = r.old;
  after = r.after;
  was = ap (λ zs. x ∷ zs) r.was;
  becomes = ap (λ zs. x ∷ zs) r.becomes;
  others = (ne, r.others);
  key_is = r.key_is;
  fits = r.fits;
}

-- The first binding of the index, with the buffer and the offset.
abbrev pub BufferReplaced : ℕ → Option ℕ → ℕ → List BufferBinding → List BufferBinding → Type 0
BufferReplaced index p offset bs cs =
    Replaced (λ (b : BufferBinding). b.index) index (λ b. Unit {0})
      (λ b. record b { buffer = p; offset = offset }) bs cs

pub rebind-Replaced :
    (index : ℕ) (p : Option ℕ) (offset : ℕ) (bs : List BufferBinding) (r : Rebound)
    → rebind index p offset bs ≡ some r
    → BufferReplaced index p offset bs r.bindings
unfolding rebind
rebind-Replaced index p offset [] r = λ e. cc
rebind-Replaced index p offset (b ∷ bs) r = elim (Bool-cases (b.index == index)) [
  | inl same ↦ rw same (λ e.
      let r_is : record { old = b.buffer; bindings = record b { buffer = p; offset = offset } ∷ bs }
          ≡ r =
        cc in
      rw (← r_is) (record {
        before = [];
        old = b;
        after = bs;
        was = refl;
        becomes = refl;
        others = tt;
        key_is = ground arith;
        fits = tt;
      }))
  | inr other ↦
      rw other
        (later (rebind index p offset bs) (rebind-Replaced index p offset bs) (λ z. ground arith))
]
  where
    later :
        (o : Option Rebound)
        → ((q : Rebound) → o ≡ some q → BufferReplaced index p offset bs q.bindings)
        → b.index ≢ index
        → keep_first b o ≡ some r
        → BufferReplaced index p offset (b ∷ bs) r.bindings
    later none found ne e = cc
    later (some q) found ne e =
        let r_is : record { old = q.old; bindings = b ∷ q.bindings } ≡ r = cc in
        rw (← r_is) (Replaced-cons _ index _ _ b bs q.bindings ne (found q refl))

-- The first scalar of the index, which has the size, with the bytes.
abbrev pub ScalarReplaced : ℕ → List ℕ → ℕ → List ScalarBinding → List ScalarBinding → Type 0
ScalarReplaced index bytes byte_count ss ts =
    Replaced (λ (s : ScalarBinding). s.index) index (λ s. s.byte_count ≡ byte_count)
      (λ s. record s { bytes = some bytes }) ss ts

pub rescale-Replaced :
    (id index : ℕ) (bytes : List ℕ) (byte_count : ℕ) (ss ts : List ScalarBinding)
    → rescale id index bytes byte_count ss ≡ done ts
    → ScalarReplaced index bytes byte_count ss ts
unfolding rescale
rescale-Replaced id index bytes byte_count [] ts = λ e. cc
rescale-Replaced id index bytes byte_count (s ∷ ss) ts = elim (Bool-cases (s.index == index)) [
  | inl same ↦ rw same (elim (Bool-cases (s.byte_count == byte_count)) [
    | inl fits ↦ rw fits (λ e.
        let ts_is : record s { bytes = some bytes } ∷ ss ≡ ts = cc in
        rw (← ts_is) (record {
          before = [];
          old = s;
          after = ss;
          was = refl;
          becomes = refl;
          others = tt;
          key_is = ground arith;
          fits = ground arith;
        }))
    | inr other ↦ rw other (λ e. cc)
  ])
  | inr other ↦ rw other (
      later (rescale id index bytes byte_count ss) (rescale-Replaced id index bytes byte_count ss)
        (λ z. ground arith))
]
  where
    later :
        (o : Outcome (List ScalarBinding))
        → ((us : List ScalarBinding) → o ≡ done us → ScalarReplaced index bytes byte_count ss us)
        → s.index ≢ index
        → (elim o [ done us ↦ done (s ∷ us) | failed e ↦ failed e | fault ↦ fault ]) ≡ done ts
        → ScalarReplaced index bytes byte_count (s ∷ ss) ts
    later (failed x) found ne e = cc
    later fault found ne e = cc
    later (done us) found ne e =
        let ts_is : s ∷ us ≡ ts = cc in
        rw (← ts_is) (Replaced-cons _ index _ _ s ss us ne (found us refl))
