-- ===== src/Bitstreams/Rewrite/Bits.antt =====
-- backends/_bitstreams.py, `_rewrite_bits`: what one edit does to the bits of the payload.
use opencodecs.Common.{
  ℕ, zero, suc, ◌+◌, ◌-◌, ◌%◌, ◌≤◌, ◌<◌, max, List, [], ◌∷◌, ◌++◌, Option, some, ◌≡◌, refl,
}
use opencodecs.Common.{
  arith, length, take, drop, get_elem?, replicate, ◌==◌, sym, ◌∙◌, ap, Bool-cases, inl, inr,
  Option-cases, eq_of_some, length-append, length-take, length-drop, get_elem?-append_left,
  get_elem?-append_right, get_elem?-take, get_elem?-drop,
}
use mathlib.Core.Path.{subst}
use mathlib.Core.Option
use mathlib.Core.Option.{none-ne-some}
use opencodecs.Bitstreams.{bit_at, bits_of, rbsp, rbsp_from, ebsp, tobytes}
use opencodecs.Bitstreams.Emulation.{rbsp-ebsp}
use opencodecs.Bitstreams.Golomb.{Reads}
use opencodecs.Bitstreams.Packing.{AllBits, drop-AllBits, bit_at-tail, bit_at-tobytes, Reads-bits}
use opencodecs.Bitstreams.Rewrite.{
  apply_edits, sort_edits, insert_edit, data_bits, strip_stop, add_stop, rewrite_bits,
}

get_elem?-data_bits : (bytes : List ℕ) (i : ℕ) → get_elem? (data_bits bytes) i ≡ bit_at bytes i
unfolding data_bits bits_of bit_at
get_elem?-data_bits [] i = refl
get_elem?-data_bits (byte ∷ bytes) zero = refl
get_elem?-data_bits (byte ∷ bytes) (suc zero) = refl
get_elem?-data_bits (byte ∷ bytes) (suc (suc zero)) = refl
get_elem?-data_bits (byte ∷ bytes) (suc (suc (suc zero))) = refl
get_elem?-data_bits (byte ∷ bytes) (suc (suc (suc (suc zero)))) = refl
get_elem?-data_bits (byte ∷ bytes) (suc (suc (suc (suc (suc zero))))) = refl
get_elem?-data_bits (byte ∷ bytes) (suc (suc (suc (suc (suc (suc zero)))))) = refl
get_elem?-data_bits (byte ∷ bytes) (suc (suc (suc (suc (suc (suc (suc zero))))))) = refl
get_elem?-data_bits (byte ∷ bytes) (suc (suc (suc (suc (suc (suc (suc (suc i)))))))) =
    let e : suc (suc (suc (suc (suc (suc (suc (suc i))))))) ≡ 8 + i = omega arith in
    get_elem?-data_bits bytes i
    ∙ sym (bit_at-tail byte bytes i)
    ∙ ap (bit_at (byte ∷ bytes)) (sym e)

data_bits-AllBits : (bytes : List ℕ) → AllBits (data_bits bytes)
unfolding data_bits bits_of
data_bits-AllBits [] = tt
data_bits-AllBits (byte ∷ bytes) = (
  omega arith,
  (
    omega arith,
    (
      omega arith,
      (
        omega arith,
        (omega arith, (omega arith, (omega arith, (omega arith, data_bits-AllBits bytes)))),
      ),
    ),
  ),
)

-- What is kept is a prefix.
strip_prefix :
    (bits kept : List ℕ) → strip_stop bits ≡ some kept → (tail : List ℕ) × (bits ≡ kept ++ tail)
unfolding strip_stop
strip_prefix [] kept h = ground arith
strip_prefix (b ∷ bits) kept h = elim (Option-cases (strip_stop bits)) [
  | inl e ↦ elim (Bool-cases (b == 0)) [
    | inl z ↦ absurd (none-ne-some _ (rw (e, z, strip_stop) at h))
    | inr z ↦
        let k : [] ≡ kept = eq_of_some (rw (e, z, strip_stop) at h) in
        (b ∷ bits, ap (λ l. l ++ (b ∷ bits)) k)
  ]
  | inr (k, e) ↦
      let (tail, t) = strip_prefix bits k e in
      let same : b ∷ k ≡ kept = eq_of_some (rw (e, strip_stop) at h) in
      (tail, ap (◌∷◌ b) t ∙ ap (λ l. l ++ tail) same)
]

pub append-AllBits : (xs ys : List ℕ) → AllBits xs → AllBits ys → AllBits (xs ++ ys)
append-AllBits [] ys h k = k
append-AllBits (x ∷ xs) ys h k = (h.0, append-AllBits xs ys h.1 k)

AllBits-left : (xs ys : List ℕ) → AllBits (xs ++ ys) → AllBits xs
AllBits-left [] ys h = tt
AllBits-left (x ∷ xs) ys h = (h.0, AllBits-left xs ys h.1)

take-AllBits : (n : ℕ) (xs : List ℕ) → AllBits xs → AllBits (take n xs)
take-AllBits zero xs h = tt
take-AllBits (suc n) [] h = tt
take-AllBits (suc n) (x ∷ xs) h = (h.0, take-AllBits n xs h.1)

replicate-AllBits : (n : ℕ) → AllBits (replicate n 0)
replicate-AllBits zero = tt
replicate-AllBits (suc n) = (omega arith, replicate-AllBits n)

-- The bits after one edit, with the rest of the payload behind them.
module _ (kept new back : List ℕ) (s e : ℕ) (se : s ≤ e) (fits : e ≤ length kept) where
  edited : List ℕ
  edited = (take s kept ++ (new ++ drop (max s e) kept)) ++ back

  taken : length (take s kept) ≡ s
  taken = omega (arith, length-take s kept)

  edited-before : (i : ℕ) → i < s → get_elem? edited i ≡ get_elem? kept i
  unfolding edited
  edited-before i h =
      get_elem?-append_left (take s kept ++ (new ++ drop (max s e) kept)) back i
        (omega (arith, length-append (take s kept) (new ++ drop (max s e) kept), taken))
      ∙ get_elem?-append_left (take s kept) (new ++ drop (max s e) kept) i (omega (arith, taken))
      ∙ get_elem?-take s i kept h

  edited-new : (i : ℕ) → i < length new → get_elem? edited (s + i) ≡ get_elem? new i
  unfolding edited
  edited-new i h =
      get_elem?-append_left (take s kept ++ (new ++ drop (max s e) kept)) back (s + i) (
        omega (
          arith,
          length-append (take s kept) (new ++ drop (max s e) kept),
          length-append new (drop (max s e) kept),
          taken,
        ))
      ∙ get_elem?-append_right (take s kept) (new ++ drop (max s e) kept) i (s + i)
          (omega (arith, taken))
      ∙ get_elem?-append_left new (drop (max s e) kept) i h

  edited-after :
      (i : ℕ) → e + i < length kept → get_elem? edited (s + length new + i) ≡ get_elem? kept (e + i)
  unfolding edited
  edited-after i h =
      let m : max s e ≡ e = omega arith in
      let d : length (drop (max s e) kept) ≡ length kept - max s e = length-drop (max s e) kept in
      get_elem?-append_left (take s kept ++ (new ++ drop (max s e) kept)) back (s + length new + i)
        (omega (
          arith,
          length-append (take s kept) (new ++ drop (max s e) kept),
          length-append new (drop (max s e) kept),
          taken,
          d,
        ))
      ∙ get_elem?-append_right (take s kept) (new ++ drop (max s e) kept) (length new + i)
          (s + length new + i) (omega (arith, taken))
      ∙ get_elem?-append_right new (drop (max s e) kept) i (length new + i) (omega arith)
      ∙ get_elem?-drop (max s e) i kept
      ∙ ap (get_elem? kept) (omega arith)

-- After one edit of the bits from `s` to `e`: the bits before it stay, the new ones stand at `s`, and
-- those behind it follow them, as far as the payload goes without its stop bit.
unfoldable pub IsEdited : List ℕ → List ℕ → List ℕ → ℕ → ℕ → ℕ → Type 0
IsEdited bytes bytes' new s e size =
    ((i : ℕ) → i < s → bit_at bytes i ≡ bit_at bytes' i)
    × Reads bytes' s new
    × ((i : ℕ) → e + i < size → bit_at bytes (e + i) ≡ bit_at bytes' (s + length new + i))

-- How many bits the payload has without its stop bit and what follows that.
unfoldable pub payload_size : List ℕ → Option ℕ
payload_size nal = Option.map length (strip_stop (data_bits (rbsp nal)))

spliced-IsEdited :
    (bytes kept tail new back : List ℕ) (s e : ℕ)
    → data_bits bytes ≡ kept ++ tail
    → s ≤ e
    → e ≤ length kept
    → AllBits new
    → AllBits back
    → IsEdited bytes
        (tobytes ((take s kept ++ (new ++ drop (max s e) kept)) ++ back))
        new
        s
        e
        (length kept)
unfolding IsEdited edited
spliced-IsEdited bytes kept tail new back s e q se fits hn hb =
    let bits = (take s kept ++ (new ++ drop (max s e) kept)) ++ back in
    let whole : AllBits kept = AllBits-left kept tail (subst AllBits q (data_bits-AllBits bytes)) in
    let all : AllBits bits =
      append-AllBits (take s kept ++ (new ++ drop (max s e) kept)) back
        (append-AllBits (take s kept) (new ++ drop (max s e) kept) (take-AllBits s kept whole)
          (append-AllBits new (drop (max s e) kept) hn (drop-AllBits (max s e) kept whole)))
        hb in
    let out = bit_at-tobytes bits in
    let old : (i : ℕ) → i < length kept → bit_at bytes i ≡ get_elem? kept i = λ i l.
      sym (get_elem?-data_bits bytes i)
      ∙ ap (λ z. get_elem? z i) q
      ∙ get_elem?-append_left kept tail i l in
    let n1 = length-append (take s kept ++ (new ++ drop (max s e) kept)) back in
    let n2 = length-append (take s kept) (new ++ drop (max s e) kept) in
    let n3 = length-append new (drop (max s e) kept) in
    let n4 = length-take s kept in
    let n5 = length-drop (max s e) kept in
    (
      λ i l.
          old i (omega arith)
          ∙ sym (edited-before kept new back s e se fits i l)
          ∙ sym (out i all (omega (arith, n1, n2, n3, n4, n5))),
      Reads-bits (tobytes bits) s new (λ i l.
          out (s + i) all (omega (arith, n1, n2, n3, n4, n5))
          ∙ edited-new kept new back s e se fits i l),
      λ i l.
          old (e + i) l
          ∙ sym (edited-after kept new back s e se fits i l)
          ∙ sym (out (s + length new + i) all (omega (arith, n1, n2, n3, n4, n5))),
    )

rbsp-two : (a b : ℕ) (nal payload : List ℕ) → rbsp (take 2 (a ∷ b ∷ nal) ++ ebsp payload) ≡ payload
rbsp-two a b nal payload = rbsp-ebsp a b payload

-- One edit leaves the two header bytes and edits the bits of the payload.
pub rewrite_bits-IsEdited :
    (nal new : List ℕ) (s e size : ℕ)
    → payload_size nal ≡ some size
    → s ≤ e
    → e ≤ size
    → AllBits new
    → (nal' : List ℕ) × (rewrite_bits nal ((s, e, new) ∷ []) ≡ some nal')
      × (take 2 nal' ≡ take 2 nal)
      × IsEdited (rbsp nal) (rbsp nal') new s e size
unfolding payload_size rewrite_bits apply_edits sort_edits insert_edit add_stop
rewrite_bits-IsEdited [] new s e size p se fits bits =
    absurd (none-ne-some size (unfold rbsp rbsp_from data_bits strip_stop in p))
rewrite_bits-IsEdited (a ∷ []) new s e size p se fits bits =
    absurd (none-ne-some size (unfold rbsp rbsp_from data_bits strip_stop in p))
rewrite_bits-IsEdited (a ∷ b ∷ nal) new s e size p se fits bits =
    elim (Option-cases (strip_stop (data_bits (rbsp (a ∷ b ∷ nal))))) [
      | inl q ↦ absurd (none-ne-some _ (rw q at p))
      | inr (kept, q) ↦
          let n : length kept ≡ size = eq_of_some (rw q at p) in
          let (tail, t) = strip_prefix (data_bits (rbsp (a ∷ b ∷ nal))) kept q in
          let body = take s kept ++ (new ++ drop (max s e) kept) in
          let back = 1 ∷ replicate ((8 - (length body + 1) % 8) % 8) 0 in
          let done =
            spliced-IsEdited (rbsp (a ∷ b ∷ nal)) kept tail new back s e t se (omega arith) bits
              (omega arith, replicate-AllBits ((8 - (length body + 1) % 8) % 8)) in
          (
            take 2 (a ∷ b ∷ nal) ++ ebsp (tobytes (body ++ back)),
            rw q refl,
            refl,
            subst (λ z. IsEdited (rbsp (a ∷ b ∷ nal)) z new s e size)
                (sym (rbsp-two a b nal (tobytes (body ++ back))))
                (subst (λ z. IsEdited (rbsp (a ∷ b ∷ nal)) (tobytes (body ++ back)) new s e z) n
                  done),
          )
    ]
