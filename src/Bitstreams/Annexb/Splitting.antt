-- ===== src/Bitstreams/Annexb/Splitting.antt =====
-- backends/_bitstreams.py: `split_annexb` of NAL units behind start codes.
use opencodecs.Common.{
  ℕ, zero, suc, ◌+◌, ◌-◌, List, [], ◌∷◌, ◌++◌, Bool, true, false, ◌&&◌, ◌≡◌, refl, ◌==◌, length,
  drop, replicate, arith, sym, ◌∙◌, ap, map, length-append, length-replicate, append_assoc,
  append-nil,
}
use opencodecs.Common.Bytes.{join, slice, slice-append, drop-append}
use opencodecs.Bitstreams.Annexb.{code_here, starts, strip_zeros, keep, units, split_annexb}

-- No start code stands within the bytes.
abbrev pub IsFree : List ℕ → Type 0
IsFree [] = Unit
IsFree (b ∷ l) = (code_here (b ∷ l) ≡ false) × IsFree l

-- The bytes end, and not with a zero.
abbrev pub EndsNonzero : List ℕ → Type 0
EndsNonzero [] = ⊥
EndsNonzero (b ∷ []) = (b == 0) ≡ false
EndsNonzero (b ∷ c ∷ l) = EndsNonzero (c ∷ l)

-- A unit with the zeros in front of its start code.
abbrev pub Framed : Type 0
Framed = ℕ × List ℕ

abbrev pub framed : Framed → List ℕ
framed (gap, nal) = replicate gap 0 ++ (0 ∷ 0 ∷ 1 ∷ nal)

abbrev pub AllUnits : List Framed → Type 0
AllUnits [] = Unit
AllUnits ((gap, nal) ∷ us) = (IsFree nal × EndsNonzero nal) × AllUnits us

and_false : (b : Bool) → (b && false) ≡ false
and_false true = refl
and_false false = refl

-- A code does not reach from a unit into what follows it.
code_here-append : (nal rest : List ℕ) → EndsNonzero nal → code_here (nal ++ rest) ≡ code_here nal
unfolding code_here
code_here-append [] rest h = elim h [ ]
code_here-append (a ∷ []) [] h = refl
code_here-append (a ∷ []) (x ∷ []) h = refl
code_here-append (a ∷ []) (x ∷ y ∷ l) h = rw h refl
code_here-append (a ∷ b ∷ []) [] h = refl
code_here-append (a ∷ b ∷ []) (x ∷ l) h = rw h (ap (λ t. t && (x == 1)) (and_false (a == 0)))
code_here-append (a ∷ b ∷ c ∷ nal) rest h = refl

EndsNonzero-tail : (b c : ℕ) (l : List ℕ) → EndsNonzero (b ∷ c ∷ l) → EndsNonzero (c ∷ l)
EndsNonzero-tail b c l h = h

starts-nal :
    (nal rest : List ℕ) (at : ℕ)
    → IsFree nal
    → EndsNonzero nal
    → starts 0 at (nal ++ rest) ≡ starts 0 (at + length nal) rest
unfolding starts
starts-nal [] rest at h k = elim k [ ]
starts-nal (b ∷ []) rest at h k = rw (code_here-append (b ∷ []) rest k, h.0) refl
starts-nal (b ∷ c ∷ nal) rest at h k =
    let e : at + 1 + length (c ∷ nal) ≡ at + length (b ∷ c ∷ nal) = omega arith in
    rw (code_here-append (b ∷ c ∷ nal) rest k, h.0)
      (starts-nal (c ∷ nal) rest (at + 1) h.1 k ∙ ap (λ t. starts 0 t rest) e)

zeros_code :
    (gap : ℕ) (l rest : List ℕ) → code_here (0 ∷ 0 ∷ ((replicate gap 0 ++ (0 ∷ l)) ++ rest)) ≡ false
unfolding code_here
zeros_code zero l rest = refl
zeros_code (suc gap) l rest = refl

places :
    (gap at : ℕ) (nal rest : List ℕ)
    → (at + 1 + gap + 3) ∷ starts 0 (at + 1 + gap + 3 + length nal) rest
      ≡ (at + suc gap + 3) ∷ starts 0 (at + suc gap + 3 + length nal) rest
places gap at nal rest =
    ap (λ (n : ℕ). (n + 3) ∷ starts 0 (n + 3 + length nal) rest) {x = at + 1 + gap} (omega arith)

-- Where the units stand.
places_of : ℕ → List Framed → List ℕ
places_of at [] = []
places_of at ((gap, nal) ∷ us) = (at + gap + 3) ∷ places_of (at + gap + 3 + length nal) us

starts-framed :
    (gap at : ℕ) (nal rest : List ℕ)
    → IsFree nal
    → EndsNonzero nal
    → starts 0 at (framed (gap, nal) ++ rest)
      ≡ (at + gap + 3) ∷ starts 0 (at + gap + 3 + length nal) rest
unfolding starts code_here
starts-framed zero at nal rest h k =
    let e : at + 3 ≡ at + 0 + 3 = omega arith in
    let e2 : at + 1 + 1 + 1 ≡ at + 0 + 3 = omega arith in
    rw e (
      ap (◌∷◌ (at + 0 + 3))
        (ap (λ t. starts 0 t (nal ++ rest)) e2 ∙ starts-nal nal rest (at + 0 + 3) h k))
starts-framed (suc zero) at nal rest h k =
    starts-framed zero (at + 1) nal rest h k ∙ places 0 at nal rest
starts-framed (suc (suc gap)) at nal rest h k =
    rw (zeros_code gap (0 ∷ 1 ∷ nal) rest)
      (starts-framed (suc gap) (at + 1) nal rest h k ∙ places (suc gap) at nal rest)

starts-all :
    (us : List Framed) (at : ℕ) → AllUnits us → starts 0 at (join (map framed us)) ≡ places_of at us
unfolding starts places_of
starts-all [] at h = refl
starts-all ((gap, nal) ∷ us) at h =
    starts-framed gap at nal (join (map framed us)) h.0.0 h.0.1
    ∙ ap (◌∷◌ (at + gap + 3)) (starts-all us (at + gap + 3 + length nal) h.1)

strip_zeros-zeros : (gap : ℕ) → strip_zeros (replicate gap 0) ≡ []
unfolding strip_zeros
strip_zeros-zeros zero = refl
strip_zeros-zeros (suc gap) = rw (strip_zeros-zeros gap, strip_zeros) refl

strip_zeros-end :
    (nal : List ℕ) (gap : ℕ) → EndsNonzero nal → strip_zeros (nal ++ replicate gap 0) ≡ nal
unfolding strip_zeros
strip_zeros-end [] gap h = elim h [ ]
strip_zeros-end (b ∷ []) gap h = rw (strip_zeros-zeros gap, strip_zeros, h) refl
strip_zeros-end (b ∷ c ∷ nal) gap h = rw (strip_zeros-end (c ∷ nal) gap h, strip_zeros) refl

keep-nal : (nal : List ℕ) (out : List (List ℕ)) → EndsNonzero nal → keep nal out ≡ nal ∷ out
unfolding keep
keep-nal [] out h = elim h [ ]
keep-nal (b ∷ nal) out h = refl

abbrev pub nals : List Framed → List (List ℕ)
nals us = map (λ u. u.1) us

-- The zeros and the start code.
abbrev lead : ℕ → List ℕ
lead gap = replicate gap 0 ++ (0 ∷ 0 ∷ 1 ∷ [])

length-lead : (gap : ℕ) → length (lead gap) ≡ gap + 3
length-lead gap = omega (
  arith,
  length-append {A = ℕ} (replicate gap 0) (0 ∷ 0 ∷ 1 ∷ []),
  length-replicate {A = ℕ} gap 0,
)

reframed :
    (front : List ℕ) (gap : ℕ) (nal rest : List ℕ)
    → front ++ (framed (gap, nal) ++ rest) ≡ (front ++ lead gap) ++ (nal ++ rest)
reframed front gap nal rest =
    ap (λ l. front ++ (l ++ rest)) (sym (append_assoc (replicate gap 0) (0 ∷ 0 ∷ 1 ∷ []) nal))
    ∙ ap (λ l. front ++ l) (append_assoc (lead gap) nal rest)
    ∙ sym (append_assoc front (lead gap) (nal ++ rest))

regapped :
    (front : List ℕ) (gap gap2 : ℕ) (nal code rest : List ℕ)
    → front ++ (framed (gap, nal) ++ ((replicate gap2 0 ++ code) ++ rest))
      ≡ (front ++ lead gap) ++ ((nal ++ replicate gap2 0) ++ (code ++ rest))
regapped front gap gap2 nal code rest =
    reframed front gap nal ((replicate gap2 0 ++ code) ++ rest)
    ∙ ap (λ l. (front ++ lead gap) ++ (nal ++ l)) (append_assoc (replicate gap2 0) code rest)
    ∙ ap (λ l. (front ++ lead gap) ++ l) (sym (append_assoc nal (replicate gap2 0) (code ++ rest)))

units-all :
    (us : List Framed) (front : List ℕ)
    → AllUnits us
    → units (front ++ join (map framed us)) (places_of (length front) us) ≡ nals us
unfolding units places_of
units-all [] front h = refl
units-all ((gap, nal) ∷ []) front h =
    ap (λ l. keep l [])
      (ap (drop (length front + gap + 3)) (reframed front gap nal [])
        ∙ drop-append (front ++ lead gap) (nal ++ []) (length front + gap + 3)
            (omega (arith, length-append front (lead gap), length-lead gap))
        ∙ append-nil nal)
    ∙ keep-nal nal [] h.0.1
units-all ((gap, nal) ∷ (gap2, nal2) ∷ us) front h =
    let rest = join (map framed us) in
    let behind = framed (gap2, nal2) ++ rest in
    let n = length-append front (lead gap) in
    let m = length-lead gap in
    let unit : slice (front ++ (framed (gap, nal) ++ behind)) (length front + gap + 3)
          (length front + gap + 3 + length nal + gap2 + 3 - 3)
        ≡ nal ++ replicate gap2 0 =
      ap
        (λ l. slice l (length front + gap + 3) (length front + gap + 3 + length nal + gap2 + 3 - 3))
        (regapped front gap gap2 nal (0 ∷ 0 ∷ 1 ∷ nal2) rest)
      ∙ slice-append (front ++ lead gap) (nal ++ replicate gap2 0) ((0 ∷ 0 ∷ 1 ∷ nal2) ++ rest)
          (length front + gap + 3) (length front + gap + 3 + length nal + gap2 + 3 - 3)
          (omega (arith, n, m))
          (omega
            (arith, n, m, length-append nal (replicate gap2 0), length-replicate {A = ℕ} gap2 0)) in
    let size : length (front ++ framed (gap, nal)) ≡ length front + gap + 3 + length nal = omega (
      arith,
      length-append front (framed (gap, nal)),
      length-append (replicate gap 0) (0 ∷ 0 ∷ 1 ∷ nal),
      length-replicate {A = ℕ} gap 0,
    ) in
    let whole = sym (append_assoc front (framed (gap, nal)) behind) in
    let place = sym size in
    let more : units (front ++ (framed (gap, nal) ++ behind))
          (places_of (length front + gap + 3 + length nal) ((gap2, nal2) ∷ us))
        ≡ nals ((gap2, nal2) ∷ us) =
      (λ i. units (whole i) (places_of (place i) ((gap2, nal2) ∷ us)))
      ∙ units-all ((gap2, nal2) ∷ us) (front ++ framed (gap, nal)) h.1 in
    (λ i. keep (strip_zeros (unit i)) (more i))
    ∙ ap (λ l. keep l (nals ((gap2, nal2) ∷ us))) (strip_zeros-end nal gap2 h.0.1)
    ∙ keep-nal nal (nals ((gap2, nal2) ∷ us)) h.0.1

-- A byte stream of NAL units, each behind a start code and any number of zero bytes, is split into
-- just these units, where a unit has no start code within it and ends with a byte other than zero.
pub split_annexb-join :
    (us : List Framed) → AllUnits us → split_annexb (join (map framed us)) ≡ nals us
unfolding split_annexb
split_annexb-join us h = ap (units (join (map framed us))) (starts-all us 0 h) ∙ units-all us [] h
