-- ===== src/Packet/Pool/ListPool.antt =====
-- packet.rs: a memory pool without caches, for runs on small inputs.
use mathlib.Core.List.{Perm}
use mathlib.Core.List.Perm
use omni_stack_rust.Base.{
  ℕ, zero, suc, ◌≤◌, ◌≡◌, refl, ap, subst, Bool, true, false, Option, none, some, List, [], ◌∷◌,
  ◌++◌, length, take, drop, leb, length-take, arith, ◌∙◌,
}
use omni_stack_rust.Packet.Pool.{Mempool}

take-drop : (n : ℕ) (xs : List ℕ) → xs ≡ take n xs ++ drop n xs
take-drop zero xs = refl
take-drop (suc n) [] = refl
take-drop (suc n) (x ∷ xs) = ap (λ l. x ∷ l) (take-drop n xs)

abbrev pub first_if : Bool → ℕ → List ℕ → Option (List ℕ × List ℕ)
first_if true n s = some (take n s, drop n s)
first_if false n s = none

abbrev pub get_first : ℕ → ℕ → List ℕ → Option (List ℕ × List ℕ)
get_first n thread s = first_if (leb n (length s)) n s

pub get_first_lem :
    (n : ℕ) (s t objs : List ℕ) (b : Bool)
    → leb n (length s) ≡ b
    → first_if b n s ≡ some (objs, t)
    → (length objs ≡ n) × Perm s (objs ++ t)
get_first_lem n s t objs true h e =
    let taken : take n s ≡ objs = cc in
    let left : drop n s ≡ t = cc in
    let enough : n ≤ length s = ground arith in
    (
      omega (arith, ap length taken, length-take n s, enough),
      subst (λ l. Perm s l)
          (take-drop n s ∙ ap (λ l. l ++ drop n s) taken ∙ ap (λ l. objs ++ l) left) (Perm.refl s),
    )
get_first_lem n s t objs false h e = absurd (cc)

abbrev pub list_pool : Mempool
list_pool = record {
  State = List ℕ;
  content = λ s. s;
  get = get_first;
  put = λ obj thread s. obj ∷ s;
  get_lem = λ n thread s t objs e. get_first_lem n s t objs (leb n (length s)) refl e;
  put_lem = λ obj thread s. Perm.refl (obj ∷ s);
}
