-- ===== src/Ole/Prefixes.antt =====
-- src/opencodecs/_ole2.py, `_read_chain` with a smaller length: the start of a chain.
use opencodecs.Common.{
  ℕ, zero, suc, ◌-◌, ◌≤◌, List, [], ◌∷◌, ◌++◌, ◌≡◌, inl, refl, sym, ap, ◌∙◌, arith,
}
use opencodecs.Common.{length, take}
use opencodecs.Common.Result.{ok}
use opencodecs.Ole.{read_sector, read_chain}
use opencodecs.Ole.Directory.{sectors_bytes}
use opencodecs.Ole.Chains.{Leads, here, there, Fresh, done, next}
use opencodecs.Ole.Runs.{take-empty}
use opencodecs.Ole.Walks.{read_chain-Leads}
use opencodecs.Ole.Wholes.{AllWhole, length-read_sector}

pub take-over : (n : ℕ) (xs ys : List ℕ) → take n (xs ++ ys) ≡ take n xs ++ take (n - length xs) ys
take-over n [] ys =
    let e : n ≡ n - 0 = omega arith in
    ap (λ k. take k ys) e ∙ sym (ap (λ l. l ++ take (n - 0) ys) (take-empty n))
take-over zero (x ∷ xs) ys = let e : 0 ≡ 0 - suc (length xs) = omega arith in ap (λ k. take k ys) e
take-over (suc n) (x ∷ xs) ys =
    let e : n - length xs ≡ suc n - suc (length xs) = omega arith in
    ap (λ l. x ∷ l) (take-over n xs ys ∙ ap (λ k. take n xs ++ take k ys) e)

-- Behind a first part of `size` bytes, only the rest that is missing matters.
pub take-part :
    (n size : ℕ) (s xs ys : List ℕ)
    → length s ≡ size
    → take (n - size) xs ≡ take (n - size) ys
    → take n (s ++ xs) ≡ take n (s ++ ys)
take-part n size s xs ys whole same =
    let part : n - length s ≡ n - size = ap (λ k. n - k) whole in
    take-over n s xs
    ∙ ap (λ k. take n s ++ take k xs) part
    ∙ ap (λ l. take n s ++ l) same
    ∙ ap (λ k. take n s ++ take k ys) (sym part)
    ∙ sym (take-over n s ys)

-- The chain of fewer bytes.
shorter :
    (file fat : List ℕ) (size m n sect : ℕ) (seen l : List ℕ) (left after : ℕ)
    → AllWhole file size l
    → Leads fat size m sect l left after
    → Fresh seen l
    → left ≡ 0
    → n ≤ m
    → (l' : List ℕ) × (after' : ℕ) × Leads fat size n sect l' 0 after'
      × Fresh seen l'
      × (take n (sectors_bytes file size l') ≡ take n (sectors_bytes file size l))
unfolding sectors_bytes AllWhole
shorter file fat size m zero sect seen l left after whole leads fresh end le =
    ([], sect, here 0 sect, done seen, refl)
shorter file fat size m (suc n) sect seen [] left after whole (here _ _) fresh end le =
    absurd (omega arith)
shorter file fat size m (suc n) sect seen (_ ∷ l) left after whole
      (there _ _ t _ _ _ more inner at leads) (next _ _ _ new fresh) end le =
    let (l', after', leads', fresh', same) =
      shorter file fat size (m - size) (suc n - size) t (sect ∷ seen) l left after whole.1 leads
        fresh end (omega arith) in
    (
      sect ∷ l',
      after',
      there (suc n) sect t l' 0 after' (omega arith) inner at leads',
      next seen sect l' new fresh',
      take-part (suc n) size (read_sector file size sect) (sectors_bytes file size l')
          (sectors_bytes file size l) (length-read_sector file size sect whole.0) same,
    )

-- A chain that holds the length is read for every smaller length too.
pub read_chain-start :
    (file fat : List ℕ) (size start m n : ℕ) (sectors : List ℕ) (after : ℕ)
    → Leads fat size m start sectors 0 after
    → Fresh [] sectors
    → AllWhole file size sectors
    → n ≤ m
    → read_chain file fat size start n ≡ ok (take n (sectors_bytes file size sectors))
read_chain-start file fat size start m n sectors after leads fresh whole le =
    let (l, end, leads', fresh', same) =
      shorter file fat size m n start [] sectors 0 after whole leads fresh refl le in
    read_chain-Leads file fat size start n l 0 end leads' fresh' (inl refl) ∙ ap ok same
