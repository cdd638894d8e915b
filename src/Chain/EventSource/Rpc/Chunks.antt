-- ===== src/Chain/EventSource/Rpc/Chunks.antt =====
-- The batches of `RpcEventSource::fetch`: `slice::chunks` names every contract once.
use lend_worker_stellar.Base.{
  ℕ, zero, suc, ◌≤◌, List, [], ◌∷◌, ◌++◌, All, concat, length, take, drop, take-drop, ◌≡◌, refl, ap,
  ◌∙◌, arith,
}
use lend_worker_stellar.Chain.EventSource.Rpc.{chunks_go, chunks}

length-take {ℓ} : {A : Type ℓ} (n : ℕ) (xs : List A) → length (take n xs) ≤ n
length-take zero xs = omega arith
length-take (suc n) [] = omega arith
length-take (suc n) (x ∷ xs) = omega (arith, length-take n xs)

length-drop {ℓ} : {A : Type ℓ} (n : ℕ) (xs : List A) → length (drop n xs) ≤ length xs
length-drop zero xs = omega arith
length-drop (suc n) [] = omega arith
length-drop (suc n) (x ∷ xs) = omega (arith, length-drop n xs)

chunks_go_lem {ℓ} :
    {A : Type ℓ} (f n : ℕ) (xs : List A)
    → length xs ≤ f
    → (concat (chunks_go f (suc n) xs) ≡ xs) × All (λ c. length c ≤ suc n) (chunks_go f (suc n) xs)
unfolding chunks_go
chunks_go_lem zero n [] h = (refl, tt)
chunks_go_lem zero n (x ∷ xs) h = absurd (omega (arith, h))
chunks_go_lem (suc f) n [] h = (refl, tt)
chunks_go_lem (suc f) n (x ∷ xs) h =
    let (whole, small) = chunks_go_lem f n (drop n xs) (omega (arith, h, length-drop n xs)) in
    (
      ap (λ l. (x ∷ take n xs) ++ l) whole ∙ ap (λ l. x ∷ l) (take-drop n xs),
      (omega (arith, length-take n xs), small),
    )

-- The chunks are the list, in pieces of at most that length.
pub chunks_lem {ℓ} :
    {A : Type ℓ} (n : ℕ) (xs : List A)
    → (concat (chunks (suc n) xs) ≡ xs) × All (λ c. length c ≤ suc n) (chunks (suc n) xs)
unfolding chunks
chunks_lem n xs = chunks_go_lem (length xs) n xs (omega arith)
