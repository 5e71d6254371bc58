-- ===== src/Topology/Counts.antt =====
-- Membership, and the numbers of edges that the invariant of the search speaks about.
use metal_graph.Base.{
  ℕ, zero, suc, ◌+◌, ◌≤◌, ◌<◌, ◌≡◌, refl, Bool, true, false, not, ◌&&◌, ◌||◌, ◌==◌, if◌then◌else◌,
  List, [], ◌∷◌, ◌++◌, length, get_or, set, get_or-set_self, get_or-set_ne, arith, All, ==_iff,
  Bool-cases, inl, inr,
}
use metal_graph.Node.{Edge}

abbrev pub mem : ℕ → List ℕ → Bool
mem v [] = false
mem v (x ∷ xs) = x == v || mem v xs

-- No element stands twice.
abbrev pub NoDup : List ℕ → Type 0
NoDup [] = Unit {0}
NoDup (x ∷ xs) = (mem x xs ≡ false) × NoDup xs

abbrev pub bit : Bool → ℕ
bit true = 1
bit false = 0

-- The edges into `v` from nodes that are not in `seen`.
abbrev pub open_edges : List Edge → List ℕ → ℕ → ℕ
open_edges [] seen v = 0
open_edges (e ∷ es) seen v = bit (e.after == v && not (mem e.before seen)) + open_edges es seen v

-- The edges from `u` into `v`.
abbrev pub hits : ℕ → List Edge → ℕ → ℕ
hits u [] v = 0
hits u (e ∷ es) v = bit (e.before == u && e.after == v) + hits u es v

pub mem-append : (v : ℕ) (xs ys : List ℕ) → mem v (xs ++ ys) ≡ (mem v xs || mem v ys)
mem-append v [] ys = refl
mem-append v (x ∷ xs) ys = ground (arith, mem-append v xs ys)

-- Producing `u` closes the edges from `u`.
pub open_edges-snoc :
    (es : List Edge) (seen : List ℕ) (u v : ℕ)
    → mem u seen ≡ false
    → open_edges es (seen ++ u ∷ []) v + hits u es v ≡ open_edges es seen v
open_edges-snoc [] seen u v h = omega arith
open_edges-snoc (e ∷ es) seen u v h =
    ground (arith, mem-append e.before seen (u ∷ []), open_edges-snoc es seen u v)

pub NoDup-append :
    (xs ys : List ℕ)
    → NoDup xs
    → NoDup ys
    → ((v : ℕ) → mem v xs ≡ true → mem v ys ≡ false)
    → NoDup (xs ++ ys)
NoDup-append [] ys p q d = q
NoDup-append (x ∷ xs) ys p q d =
    (ground (arith, mem-append x xs ys, d x), NoDup-append xs ys p.1 q (λ v m. d v (ground arith)))

pub get_or-set :
    (xs : List ℕ) (i j v : ℕ)
    → i < length xs
    → get_or (set xs i v) j 0 ≡ (if i == j then v else get_or xs j 0)
get_or-set xs i j v h = elim (Bool-cases (i == j)) [
  | inl s ↦ rw (s, ← (==_iff i j).0 s) (get_or-set_self xs i v 0 h)
  | inr d ↦ rw d (get_or-set_ne xs i j v 0 (λ e. ground arith))
]

-- The parts of a list without duplicates, which share nothing.
pub record Parts (xs ys : List ℕ) : Type 0 where
  pub left : NoDup xs
  pub right : NoDup ys
  pub apart : (v : ℕ) → mem v xs ≡ true → mem v ys ≡ false

pub NoDup-Parts : (xs ys : List ℕ) → NoDup (xs ++ ys) → Parts xs ys
NoDup-Parts [] ys h = record { left = tt; right = h; apart = λ v m. cc }
NoDup-Parts (x ∷ xs) ys h =
    let rest = NoDup-Parts xs ys h.1 in
    record {
      left = (ground (arith, mem-append x xs ys), rest.left);
      right = rest.right;
      apart = λ v m. ground (arith, mem-append x xs ys, rest.apart v, ==_iff x v);
    }

pub hits-le : (es : List Edge) (u v : ℕ) → hits u es v ≤ length es
hits-le [] u v = omega arith
hits-le (e ∷ es) u v = ground (arith, hits-le es u v)

pub open_edges-le : (es : List Edge) (seen : List ℕ) (v : ℕ) → open_edges es seen v ≤ length es
open_edges-le [] seen v = omega arith
open_edges-le (e ∷ es) seen v = ground (arith, open_edges-le es seen v)

-- No edge leads to a node out of range.
pub hits_out_of_range :
    (n : ℕ) (es : List Edge) (u v : ℕ)
    → All (λ (e : Edge). e.after < n) es
    → n ≤ v
    → hits u es v ≡ 0
hits_out_of_range n [] u v range h = refl
hits_out_of_range n (e ∷ es) u v range h =
    let first = range.0 in ground (arith, hits_out_of_range n es u v range.1)

pub get_or_out_of_range : (xs : List ℕ) (v : ℕ) → length xs ≤ v → get_or xs v 0 ≡ 0
get_or_out_of_range [] v h = refl
get_or_out_of_range (x ∷ xs) zero h = absurd (omega arith)
get_or_out_of_range (x ∷ xs) (suc v) h = get_or_out_of_range xs v (omega arith)
