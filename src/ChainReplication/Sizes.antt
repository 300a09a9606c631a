-- ===== src/ChainReplication/Sizes.antt =====
-- The sizes of lists of transactions, and the parts of such lists.
use cbox.Base.{
  ℕ, zero, suc, ◌++◌, ◌+◌, ◌≤◌, List, [], ◌∷◌, ◌≡◌, refl, ap, ◌∙◌, nat_eq, length, take, drop, map,
  arith,
}
use cbox.Protocol.{Txn, TxnCtx}

-- The size of these transactions.
abbrev pub total : (Txn → ℕ) → List (Txn × TxnCtx) → ℕ
total size_of [] = 0
total size_of (z ∷ zs) = size_of z.0 + total size_of zs

pub total-take :
    (size_of : Txn → ℕ) (m n : ℕ) (zs : List (Txn × TxnCtx))
    → total size_of (take (m + n) zs)
      ≡ total size_of (take m zs) + total size_of (take n (drop m zs))
total-take size_of zero n zs =
    let left : zero + n ≡ n = omega arith in ap (λ k. total size_of (take k zs)) left ∙ omega arith
total-take size_of (suc m) n [] =
    let left : suc m + n ≡ suc (m + n) = omega arith in
    ap (λ k. total size_of (take k [])) left ∙ empty n
  where
    empty : (n : ℕ) → 0 ≡ 0 + total size_of (take n [])
    empty zero = omega arith
    empty (suc n) = omega arith
total-take size_of (suc m) n (z ∷ zs) =
    let left : suc m + n ≡ suc (m + n) = omega arith in
    ap (λ k. total size_of (take k (z ∷ zs))) left ∙ omega (arith, total-take size_of m n zs)

pub length-drop :
    (m : ℕ) (zs : List (Txn × TxnCtx)) → m ≤ length zs → m + length (drop m zs) ≡ length zs
length-drop zero zs h = omega arith
length-drop (suc m) [] h = absurd (omega arith)
length-drop (suc m) (z ∷ zs) h = omega (arith, length-drop m zs (omega arith))

pub total-split :
    (size_of : Txn → ℕ) (m : ℕ) (zs : List (Txn × TxnCtx))
    → total size_of (take m zs) + total size_of (drop m zs) ≡ total size_of zs
total-split size_of zero zs = omega arith
total-split size_of (suc m) [] = omega arith
total-split size_of (suc m) (z ∷ zs) = omega (arith, total-split size_of m zs)

pub map-split :
    (m : ℕ) (zs : List (Txn × TxnCtx))
    → map {B = Txn} (λ z. z.0) (take m zs) ++ map (λ z. z.0) (drop m zs) ≡ map (λ z. z.0) zs
map-split zero zs = refl
map-split (suc m) [] = refl
map-split (suc m) (z ∷ zs) = ap (λ r. z.0 ∷ r) (map-split m zs)
