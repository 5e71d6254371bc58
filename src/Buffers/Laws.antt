-- ===== src/Buffers/Laws.antt =====
-- The owner of a buffer's memory is told of its end, once: the `owner_release` callback of
-- mg_buffer_release in src/core/buffer.c.
use metal_graph.Base.{
  ℕ, ◌+◌, ◌-◌, ◌%◌, ◌≤◌, ◌<◌, ◌≡◌, ◌≢◌, refl, sym, ◌∙◌, ap, subst, true, false, ◌==◌, ltb, Option,
  none, some, List, [], ◌∷◌, ◌++◌, arith, ==_iff,
}
use metal_graph.Outcome.{done}
use metal_graph.Heap.{Heap, Buffer, buffer_retain, buffer_release, buffer_counted, notify_owner}
use metal_graph.Heap.Counting.{update, retain, release, word32}
use metal_graph.Heap.Refs.{HeapKept}
use metal_graph.Types.{OriginKind}
use metal_graph.Buffers.{
  kind_or_owned, origin_info_size, OriginInfo, buffer_destroy, buffer_length, get_origin_info,
  origin_info_of,
}

-- What the holders of a buffer do with it.
pub data Use : Type 0 where
  take drop : Use

-- One use of the buffer at an address.
use_buffer : ℕ → Use → Heap → Option Heap
use_buffer p take h = buffer_retain (some p) h
use_buffer p drop h = buffer_release (some p) h

pub run_uses : ℕ → List Use → Heap → Option Heap
unfolding use_buffer
run_uses p [] h = some h
run_uses p (u ∷ us) h = elim (use_buffer p u h) [ none ↦ none | some k ↦ run_uses p us k ]

-- From `n` references the uses lead to `m`, and never to none on the way.
abbrev pub Keeps : ℕ → List Use → ℕ → Type 0
Keeps n [] m = n ≡ m
Keeps n (take ∷ us) m = (n + 1 < word32) × Keeps (n + 1) us m
Keeps n (drop ∷ us) m = (1 < n) × Keeps (n - 1) us m

abbrev pub with_count : Buffer → ℕ → Buffer
with_count b n = record b { ref_count = n }

-- The buffer is as before, but for its count; nobody was called.
pub record StillHeld (p : ℕ) (b : Buffer) (n : ℕ) (h k : Heap) : Type 0 where
  pub buffer : k.buffers p ≡ some (with_count b n)
  pub others : (q : ℕ) → q ≢ p → k.buffers q ≡ h.buffers q
  pub callbacks : k.callbacks ≡ h.callbacks

retained :
    (t : ℕ → Option Buffer) (p : ℕ) (b : Buffer)
    → t p ≡ some b
    → b.ref_count + 1 < word32
    → retain (some p) t ≡ some (update t p (some (with_count b (b.ref_count + 1))))
unfolding retain
retained t p b e fits =
    let no_wrap : (b.ref_count + 1) % word32 ≡ b.ref_count + 1 = omega arith in
    rw (e, retain, no_wrap)

lowered :
    (t : ℕ → Option Buffer) (p : ℕ) (b : Buffer)
    → t p ≡ some b
    → 1 < b.ref_count
    → release (some p) t ≡ some (update t p (some (with_count b (b.ref_count - 1))), none)
unfolding release
lowered t p b e more = let test : ltb 1 b.ref_count ≡ true = ground arith in rw (e, release, test)

dropped :
    (t : ℕ → Option Buffer) (p : ℕ) (b : Buffer)
    → t p ≡ some b
    → b.ref_count ≡ 1
    → release (some p) t ≡ some (update t p none, some b)
unfolding release
dropped t p b e one = rw (e, release, one)

update_self : (t : ℕ → Option Buffer) (p : ℕ) (v : Option Buffer) → update t p v p ≡ v
update_self t p v = let self : (p == p) ≡ true = ground arith in rw self

update_ne : (t : ℕ → Option Buffer) (p q : ℕ) (v : Option Buffer) → q ≢ p → update t p v q ≡ t q
update_ne t p q v ne = let other : (p == q) ≡ false = ground (arith, ==_iff p q) in rw other

-- One use that keeps the buffer.
use_buffer-StillHeld :
    (p : ℕ) (u : Use) (us : List Use) (b : Buffer) (m : ℕ) (h : Heap)
    → h.buffers p ≡ some b
    → Keeps b.ref_count (u ∷ us) m
    → (k : Heap) × (n : ℕ) × (use_buffer p u h ≡ some k) × StillHeld p b n h k × Keeps n us m
unfolding use_buffer buffer_retain buffer_release
use_buffer-StillHeld p take us b m h e keeps =
    let t = update h.buffers p (some (with_count b (b.ref_count + 1))) in
    (
      record h { buffers = t },
      b.ref_count + 1,
      rw (retained h.buffers p b e keeps.0, buffer_retain),
      record {
        buffer = update_self h.buffers p _;
        others = λ q ne. update_ne h.buffers p q _ ne;
        callbacks = refl;
      },
      keeps.1,
    )
use_buffer-StillHeld p drop us b m h e keeps =
    let t = update h.buffers p (some (with_count b (b.ref_count - 1))) in
    (
      record h { buffers = t },
      b.ref_count - 1,
      rw (lowered h.buffers p b e keeps.0, buffer_release),
      record {
        buffer = update_self h.buffers p _;
        others = λ q ne. update_ne h.buffers p q _ ne;
        callbacks = refl;
      },
      keeps.1,
    )

run_uses-StillHeld :
    (p : ℕ) (us : List Use) (b : Buffer) (m : ℕ) (h : Heap)
    → h.buffers p ≡ some b
    → Keeps b.ref_count us m
    → (k : Heap) × (run_uses p us h ≡ some k) × StillHeld p b m h k
unfolding run_uses
run_uses-StillHeld p [] b m h e keeps = (
  h,
  refl,
  record {
    buffer = e ∙ ap (λ n. some (with_count b n)) keeps;
    others = λ q ne. refl;
    callbacks = refl;
  },
)
run_uses-StillHeld p (u ∷ us) b m h e keeps =
    let (k, n, one, held, rest) = use_buffer-StillHeld p u us b m h e keeps in
    let (l, all, more) = run_uses-StillHeld p us (with_count b n) m k held.buffer rest in
    (
      l,
      rw (one, run_uses) all,
      record {
        buffer = more.buffer;
        others = λ q ne. more.others q ne ∙ held.others q ne;
        callbacks = more.callbacks ∙ held.callbacks;
      },
    )

-- The calls after an object went: one more, of the owner's callback with its context, if there is one.
abbrev pub Told : Option ℕ → Option ℕ → List (ℕ × Option ℕ) → List (ℕ × Option ℕ) → Type 0
Told none context before after = after ≡ before
Told (some f) context before after = after ≡ before ++ (f, context) ∷ []

-- The buffer is gone, and its owner was told, if there is one.
pub record IsGone (p : ℕ) (b : Buffer) (h k : Heap) : Type 0 where
  pub buffer : k.buffers p ≡ none
  pub others : (q : ℕ) → q ≢ p → k.buffers q ≡ h.buffers q
  pub told : Told b.owner_release b.owner_context h.callbacks k.callbacks

notify_owner-Told :
    (b : Buffer) (log : List (ℕ × Option ℕ))
    → Told b.owner_release b.owner_context log (notify_owner (some b) log)
notify_owner-Told b log =
    elim b.owner_release
      as (λ o.
        Told o b.owner_context log
          (elim o [ none ↦ log | some f ↦ log ++ (f, b.owner_context) ∷ [] ])) [
            | none ↦ refl
            | some f ↦ refl
          ]

-- Whatever the holders of a live buffer do, as long as each drop leaves a reference and no counter
-- overflows: nobody is called. When one reference is left, mgBufferDestroy frees the buffer and calls
-- the owner's callback, if there is one, exactly once and with the owner's context; no other buffer
-- changes.
pub run_uses-buffer_destroy :
    (p : ℕ) (us : List Use) (b : Buffer) (h : Heap)
    → h.buffers p ≡ some b
    → Keeps b.ref_count us 1
    → (k : Heap) × (l : Heap) × (run_uses p us h ≡ some k)
      × StillHeld p b 1 h k
      × (buffer_destroy (some p) k ≡ some l)
      × IsGone p b h l
unfolding buffer_destroy buffer_release
run_uses-buffer_destroy p us b h e keeps =
    let (k, runs, held) = run_uses-StillHeld p us b 1 h e keeps in
    (
      k,
      record k { buffers = update k.buffers p none; callbacks = notify_owner (some b) k.callbacks },
      runs,
      held,
      rw (dropped k.buffers p (with_count b 1) held.buffer refl, buffer_release),
      record {
        buffer = update_self k.buffers p none;
        others = λ q ne. update_ne k.buffers p q none ne ∙ held.others q ne;
        told =
            subst
              (λ log. Told b.owner_release b.owner_context log (notify_owner (some b) k.callbacks))
              held.callbacks (notify_owner-Told b k.callbacks);
      },
    )

kind_or_owned-ne : (o : OriginKind) → kind_or_owned o ≢ OriginKind.unset
unfolding kind_or_owned
kind_or_owned-ne OriginKind.unset = λ e. cc
kind_or_owned-ne OriginKind.library_owned = λ e. cc
kind_or_owned-ne OriginKind.external_metal = λ e. cc
kind_or_owned-ne OriginKind.adapter_copy = λ e. cc
kind_or_owned-ne OriginKind.adapter_zero_copy = λ e. cc

given_info :
    (h : Heap) (p : ℕ) (b : Buffer) (size : ℕ)
    → h.buffers p ≡ some b
    → origin_info_size ≤ size
    → get_origin_info h (some p) (some size) ≡ done (origin_info_of b)
unfolding get_origin_info
given_info h p b size e wide =
    let test : ltb size origin_info_size ≡ false = ground arith in rw (test, e)

-- mgBufferGetOriginInfo, of a live buffer and into a structure that is large enough: it succeeds, the
-- kind of origin is never the zero that stands for none, the length is that of mgBufferLength, and
-- every later heap in which the buffer still lives gives the same information.
pub get_origin_info-Kept :
    (h : Heap) (p : ℕ) (b : Buffer) (size : ℕ)
    → h.buffers p ≡ some b
    → origin_info_size ≤ size
    → (info : OriginInfo) × (get_origin_info h (some p) (some size) ≡ done info)
      × (info.origin_kind ≢ OriginKind.unset)
      × (buffer_length h (some p) ≡ some info.byte_length)
      × ((k : Heap) (c : Buffer)
          → HeapKept h k
          → k.buffers p ≡ some c
          → get_origin_info k (some p) (some size) ≡ done info)
unfolding origin_info_of buffer_length
get_origin_info-Kept h p b size e wide = (
  origin_info_of b,
  given_info h p b size e wide,
  kind_or_owned-ne b.origin_kind,
  rw (e, buffer_length),
  λ k c kept at.
      let (a, was, same) = kept.buffers p c at in
      let both : some b ≡ some a = sym e ∙ was in
      let b_is : b ≡ a = cc in
      given_info k p c size at wide
      ∙ ap (λ (x : Buffer). done (origin_info_of x)) (sym same)
      ∙ ap (λ (x : Buffer). done (origin_info_of (with_count x c.ref_count))) (sym b_is),
)
