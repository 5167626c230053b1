-- ===== src/Bitstreams/Rewrite/Signal.antt =====
-- backends/_bitstreams.py, `hevc_sps_rewrite`: the color of a rewritten SPS.
use opencodecs.Common.{
  ℕ, ◌+◌, ◌-◌, ◌≤◌, ◌<◌, List, [], ◌++◌, Bool, true, false, take, Option, none, some, ◌≡◌, refl,
}
use opencodecs.Common.{arith, length, if◌then◌else◌, ap, sym, ◌∙◌, some_pair, eq_of_some}
use mathlib.Core.Path.{subst}
use mathlib.Core.Option.{none-ne-some}
use opencodecs.Bitstreams.{bit_at, bits_of, rbsp}
use opencodecs.Bitstreams.Packing.{AllBits, bits_of-AllBits}
use opencodecs.Bitstreams.Reader.{pure}
use opencodecs.Bitstreams.Moves.{Same, anywhere, Moves, bind-cases, bind-some, pair_cong}
use opencodecs.Bitstreams.Hevc.Sps.{
  Head, Sps, sps, sps_front, sps_back, without_vui, video_signal, vui_rest, hevc_sps,
}
use opencodecs.Bitstreams.Hevc.Front.{IsLocal-sps_front, vui_rest-Moves}
use opencodecs.Bitstreams.Rewrite.{
  signal_bits, signal_edit, dpb_edit, rps_edit, hrd_edit, hevc_sps_rewrite,
}
use opencodecs.Bitstreams.Rewrite.Bits.{
  IsEdited, payload_size, append-AllBits, rewrite_bits-IsEdited,
}
use opencodecs.Bitstreams.Rewrite.VideoSignal.{
  sps_back-cases, sps_back-some, video_signal-signal_bits, IsLocal-video_signal, full_small,
  full_value,
}

-- A run of `sps` that gives the positions of a video signal type has a VUI.
sps-cases :
    (bytes : List ℕ) (info : Sps) (s e end : ℕ)
    → sps bytes 0 ≡ some (info, end)
    → info.signal_at ≡ some (s, e)
    → (hrd : Option (ℕ × ℕ)) × (sps_front bytes 0 ≡ some ((info.head, true), s))
      × (video_signal bytes s ≡ some (info.vui, e))
      × (vui_rest info.head.layers bytes e ≡ some (hrd, end))
unfolding sps pure
sps-cases bytes info s e end h at_s =
    let ((head, vui), m, e0, h1) =
      bind-cases sps_front (λ r. if r.1 then sps_back r.0 else pure (without_vui r.0)) bytes 0
        (info, end) h in
    split head vui m e0 h1
  where
    split :
        (head : Head) (vui : Bool) (m : ℕ)
        → sps_front bytes 0 ≡ some ((head, vui), m)
        → (if vui then sps_back head else pure (without_vui head)) bytes m ≡ some (info, end)
        → (hrd : Option (ℕ × ℕ)) × (sps_front bytes 0 ≡ some ((info.head, true), s))
          × (video_signal bytes s ≡ some (info.vui, e))
          × (vui_rest info.head.layers bytes e ≡ some (hrd, end))
    split head false m e0 h1 =
        let (same, _) = some_pair h1 in
        absurd (none-ne-some (s, e) (ap (λ (i : Sps). i.signal_at) same ∙ at_s))
    split head true m e0 h1 =
        let (color, e1, hrd, v, r, same) = sps_back-cases head bytes m info end h1 in
        let places : (m, e1) ≡ (s, e) = eq_of_some (ap (λ (i : Sps). i.signal_at) same ∙ at_s) in
        let ms : m ≡ s = ap (λ (p : ℕ × ℕ). p.0) places in
        let ee : e1 ≡ e = ap (λ (p : ℕ × ℕ). p.1) places in
        let hh : head ≡ info.head = ap (λ (i : Sps). i.head) same in
        let cc : color ≡ info.vui = ap (λ (i : Sps). i.vui) same in
        (
          hrd,
          e0 ∙ (λ i. some ((hh i, true), ms i)),
          subst (λ t. video_signal bytes t ≡ some (color, e1)) ms v ∙ (λ i. some (cc i, ee i)),
          subst (λ (p : Head × ℕ). vui_rest p.0.layers bytes p.1 ≡ some (hrd, end))
              (λ i. (hh i, ee i)) r,
        )

Same-start :
    (bytes bytes' : List ℕ) (n : ℕ)
    → ((i : ℕ) → i < n → bit_at bytes i ≡ bit_at bytes' i)
    → Same bytes 0 bytes' 0 (n - 0)
unfolding Same
Same-start bytes bytes' n h i l = let e : 0 + i ≡ i = omega arith in rw e (h i (omega arith))

sps-ordered :
    (bytes : List ℕ) (info : Sps) (s e end : ℕ)
    → sps bytes 0 ≡ some (info, end)
    → info.signal_at ≡ some (s, e)
    → (s ≤ e) × (e ≤ end)
unfolding Moves
sps-ordered bytes info s e end h at_s =
    let (hrd, _, signal, rest) = sps-cases bytes info s e end h at_s in
    (
      ((IsLocal-video_signal anywhere).moves bytes s info.vui e signal).0,
      (vui_rest-Moves info.head.layers bytes e hrd end rest).0,
    )

-- The parameter set of a payload with new color bits, from a run on the old payload.
sps-edited :
    (bytes bytes' : List ℕ) (info : Sps) (s e end size : ℕ) (cp tc mc : ℕ) (full : Bool)
    → sps bytes 0 ≡ some (info, end)
    → info.signal_at ≡ some (s, e)
    → end ≤ size
    → cp < 256
    → tc < 256
    → mc < 256
    → IsEdited bytes bytes' (signal_bits (cp, tc, mc, full)) s e size
    → (hrd : Option (ℕ × ℕ)) × (end' : ℕ) × (sps bytes' 0
        ≡ some (
          record {
            head = info.head;
            vui = (cp, tc, mc, full);
            signal_at = some (s, s + 30);
            hrd_at = hrd;
          },
          end',
        ))
unfolding sps IsEdited Moves Same signal_bits bits_of
sps-edited bytes bytes' info s e end size cp tc mc full h at_s fits a b c edited =
    let (hrd, front, signal, rest) = sps-cases bytes info s e end h at_s in
    let (_, front_moves) = IsLocal-sps_front.moves bytes 0 (info.head, true) s front in
    let (head', front', same) = front_moves bytes' 0 refl (Same-start bytes bytes' s edited.0) in
    let signal' = video_signal-signal_bits cp tc mc full bytes' s a b c edited.1 in
    let (le, rest_moves) = vui_rest-Moves info.head.layers bytes e hrd end rest in
    let n : s + length (signal_bits (cp, tc, mc, full)) ≡ s + 30 = refl in
    let (hrd', rest', _) = rest_moves bytes' (s + 30) tt (λ i l. edited.2 i (omega arith)) in
    (
      hrd',
      s + 30 + (end - e),
      bind-some sps_front (λ r. if r.1 then sps_back r.0 else pure (without_vui r.0)) bytes' 0
            (front' ∙ pair_cong (sym same) (omega arith))
          ∙ sps_back-some info.head bytes' s (cp, tc, mc, full) (s + 30) (s + 30 + (end - e)) hrd'
              signal' rest',
    )

signal_bits-AllBits : (cp tc mc : ℕ) (full : Bool) → AllBits (signal_bits (cp, tc, mc, full))
unfolding signal_bits full_value
signal_bits-AllBits cp tc mc full = (
  omega arith,
  (
    omega arith,
    (
      omega arith,
      (
        omega arith,
        (
          full_small full,
          (
            omega arith,
            append-AllBits (bits_of 8 cp) (bits_of 8 tc ++ bits_of 8 mc) (bits_of-AllBits 8 cp) (
                append-AllBits (bits_of 8 tc) (bits_of 8 mc) (bits_of-AllBits 8 tc)
                  (bits_of-AllBits 8 mc)),
          ),
        ),
      ),
    ),
  ),
)

hrd_kept : (at : Option (ℕ × ℕ)) → hrd_edit at false ≡ []
unfolding hrd_edit
hrd_kept none = refl
hrd_kept (some at) = refl

-- An SPS with a VUI that is read within the bits of its payload in front of the stop bit is rewritten
-- with a new color, whose code points fit a byte. The two header bytes stay, and so do all bits of the
-- payload in front of the video signal type; those behind it, up to the stop bit, follow the new
-- one. The new SPS parses: with that color, at the same position, and all fields in front of it as they
-- were, the positions of the DPB sizes and of the reference picture sets too.
pub hevc_sps_rewrite-signal :
    (nal : List ℕ) (info : Sps) (s e end size : ℕ) (cp tc mc : ℕ) (full : Bool)
    → sps (rbsp nal) 0 ≡ some (info, end)
    → info.signal_at ≡ some (s, e)
    → payload_size nal ≡ some size
    → end ≤ size
    → cp < 256
    → tc < 256
    → mc < 256
    → (nal' : List ℕ) × (info' : Sps) × (hevc_sps_rewrite nal none
          (some (cp, tc, mc, full))
          false
          false
        ≡ some nal')
      × (take 2 nal' ≡ take 2 nal)
      × ((i : ℕ) → i < s → bit_at (rbsp nal) i ≡ bit_at (rbsp nal') i)
      × ((i : ℕ) → e + i < size → bit_at (rbsp nal) (e + i) ≡ bit_at (rbsp nal') (s + 30 + i))
      × (hevc_sps nal' ≡ some info')
      × (info'.head ≡ info.head)
      × (info'.vui ≡ (cp, tc, mc, full))
      × (info'.signal_at ≡ some (s, s + 30))
unfolding hevc_sps hevc_sps_rewrite signal_edit dpb_edit rps_edit hrd_edit IsEdited signal_bits
    bits_of
hevc_sps_rewrite-signal nal info s e end size cp tc mc full h at_s p fits a b c =
    let new = signal_bits (cp, tc, mc, full) in
    let (s_e, e_end) = sps-ordered (rbsp nal) info s e end h at_s in
    let (nal', written, header, edited) =
      rewrite_bits-IsEdited nal new s e size p s_e (omega arith)
        (signal_bits-AllBits cp tc mc full) in
    let (hrd, end', read) =
      sps-edited (rbsp nal) (rbsp nal') info s e end size cp tc mc full h at_s fits a b c edited in
    (
      nal',
      record {
        head = info.head;
        vui = (cp, tc, mc, full);
        signal_at = some (s, s + 30);
        hrd_at = hrd;
      },
      rw (h, at_s, hevc_sps_rewrite, hevc_sps, signal_edit, hrd_kept info.hrd_at) written,
      header,
      edited.0,
      edited.2,
      rw (read, hevc_sps) refl,
      refl,
      refl,
      refl,
    )
