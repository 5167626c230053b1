-- ===== src/Bitstreams/Rewrite/VideoSignal.antt =====
-- backends/_bitstreams.py: the video signal type of a VUI, and what follows it, as `hevc_sps` reads it.
use opencodecs.Common.{
  ℕ, ◌+◌, ◌<◌, ◌^◌, List, ◌∷◌, ◌++◌, Bool, true, false, Option, some, ◌≡◌, refl,
}
use opencodecs.Common.{arith, ◌==◌, if◌then◌else◌, not, ap, sym, ◌∙◌, some_pair}
use mathlib.Core.Path.{subst}
use opencodecs.Bitstreams.{u, bits_of}
use opencodecs.Bitstreams.Golomb.{Reads, Reads-append, u-bits_of, u-one, length-bits_of}
use opencodecs.Bitstreams.Reader.{Reader, pure, ◌>>=◌, ◌>>◌, skip, if_flag, position}
use opencodecs.Bitstreams.Moves.{Places, IsLocal, bind-cases, bind-some, pair_cong}
use opencodecs.Bitstreams.Local.{local_rules}
use opencodecs.Bitstreams.Hevc.Sps.{
  Head, Sps, Color, sps_back, video_signal, description, vui_rest, unspecified,
}
use opencodecs.Bitstreams.Rewrite.{signal_bits}

IsLocal-description : (places : Places) → IsLocal places description
unfolding description
IsLocal-description places = search local_rules depth 9

pub IsLocal-video_signal : (places : Places) → IsLocal places video_signal
unfolding video_signal
IsLocal-video_signal places = search (local_rules, IsLocal-description) depth 20 fits 3000

abbrev vui_end : Head → ℕ → Color → ℕ → Reader Sps
vui_end head start color end = do
  hrd ← vui_rest head.layers
  pure (record { head = head; vui = color; signal_at = some (start, end); hrd_at = hrd })

abbrev colored : Head → ℕ → Color → Reader Sps
colored head start color = do end ← position; vui_end head start color end

abbrev started : Head → ℕ → Reader Sps
started head start = do color ← video_signal; colored head start color

-- What a run of `sps_back` is made of.
pub sps_back-cases :
    (head : Head) (bytes : List ℕ) (at : ℕ) (info : Sps) (end : ℕ)
    → sps_back head bytes at ≡ some (info, end)
    → (color : Color) × (e : ℕ) × (hrd : Option (ℕ × ℕ)) × (video_signal bytes at ≡ some (color, e))
      × (vui_rest head.layers bytes e ≡ some (hrd, end))
      × (record { head = head; vui = color; signal_at = some (at, e); hrd_at = hrd } ≡ info)
unfolding sps_back position pure
sps_back-cases head bytes at info end h =
    let (start, m, e0, h1) = bind-cases position (started head) bytes at (info, end) h in
    let (start-e, m-e) = some_pair e0 in
    let (color, e, e1, h2) = bind-cases video_signal (colored head start) bytes m (info, end) h1 in
    let (e', m2, e2, h3) = bind-cases position (vui_end head start color) bytes e (info, end) h2 in
    let (e'-e, m2-e) = some_pair e2 in
    let (hrd, m3, e3, h4) =
      bind-cases (vui_rest head.layers)
        (λ hrd.
          pure (record { head = head; vui = color; signal_at = some (start, e'); hrd_at = hrd }))
        bytes m2 (info, end) h3 in
    let (r, m3-e) = some_pair h4 in
    (
      color,
      e,
      hrd,
      subst (λ t. video_signal bytes t ≡ some (color, e)) (sym m-e) e1,
      subst (λ t. vui_rest head.layers bytes t ≡ some (hrd, end)) (sym m2-e)
          (e3 ∙ pair_cong refl m3-e),
      ap
            (λ (t : ℕ × ℕ). record {
              head = head;
              vui = color;
              signal_at = some (t.0, t.1);
              hrd_at = hrd;
            })
            (λ i. (start-e i, e'-e i))
          ∙ r,
    )

-- And what makes one.
pub sps_back-some :
    (head : Head) (bytes : List ℕ) (at : ℕ) (color : Color) (e end : ℕ) (hrd : Option (ℕ × ℕ))
    → video_signal bytes at ≡ some (color, e)
    → vui_rest head.layers bytes e ≡ some (hrd, end)
    → sps_back head bytes at
      ≡ some (record { head = head; vui = color; signal_at = some (at, e); hrd_at = hrd }, end)
unfolding sps_back position pure
sps_back-some head bytes at color e end hrd h k =
    bind-some position (started head) bytes at refl
    ∙ bind-some video_signal (colored head at) bytes at h
    ∙ bind-some position (vui_end head at color) bytes e refl
    ∙ bind-some (vui_rest head.layers)
        (λ hrd. pure (record { head = head; vui = color; signal_at = some (at, e); hrd_at = hrd }))
        bytes e k

field :
    (n value : ℕ) (rest bytes : List ℕ) (at : ℕ)
    → value < 2 ^ n
    → Reads bytes at (bits_of n value ++ rest)
    → (u n bytes at ≡ some (value, at + n)) × Reads bytes (at + n) rest
field n value rest bytes at small h =
    let (a, b) = Reads-append bytes at (bits_of n value) rest h in
    (u-bits_of n value bytes at small a, rw (length-bits_of n value) at b)

full_bit : (full : Bool) → not ((if full then 1 else 0) == 0) ≡ full
full_bit true = refl
full_bit false = refl

description-bits :
    (cp tc mc : ℕ) (bytes : List ℕ) (at : ℕ)
    → cp < 256
    → tc < 256
    → mc < 256
    → Reads bytes at (bits_of 8 cp ++ (bits_of 8 tc ++ bits_of 8 mc))
    → description bytes at ≡ some ((cp, tc, mc), at + 24)
unfolding description pure
description-bits cp tc mc bytes at a b c h =
    let (e, h1) = field 8 cp (bits_of 8 tc ++ bits_of 8 mc) bytes at a h in
    let (e1, h2) = field 8 tc (bits_of 8 mc) bytes (at + 8) b h1 in
    let e2 = u-bits_of 8 mc bytes (at + 8 + 8) c h2 in
    bind-some (u 8) (λ cp. do tc ← u 8; mc ← u 8; pure (cp, tc, mc)) bytes at e
    ∙ bind-some (u 8) (λ tc. do mc ← u 8; pure (cp, tc, mc)) bytes (at + 8) e1
    ∙ bind-some (u 8) (λ mc. pure (cp, tc, mc)) bytes (at + 8 + 8) e2
    ∙ pair_cong refl (omega arith)

flag_set :
    {A : Type 0} (other : A) (p : Reader A) (bytes : List ℕ) (at : ℕ)
    → u 1 bytes at ≡ some (1, at + 1)
    → if_flag other p bytes at ≡ p bytes (at + 1)
unfolding if_flag
flag_set other p bytes at h = bind-some (u 1) (λ b. if b == 0 then pure other else p) bytes at h

unfoldable pub full_value : Bool → ℕ
full_value full = if full then 1 else 0

pub full_small : (full : Bool) → full_value full < 2
unfolding full_value
full_small true = omega arith
full_small false = omega arith

abbrev described : Bool → Reader Color
described full = do (cp, tc, mc) ← if_flag (2, 2, 2) description; pure (cp, tc, mc, full)

-- What `hevc_sps_rewrite` writes for a color is read as that color.
pub video_signal-signal_bits :
    (cp tc mc : ℕ) (full : Bool) (bytes : List ℕ) (at : ℕ)
    → cp < 256
    → tc < 256
    → mc < 256
    → Reads bytes at (signal_bits (cp, tc, mc, full))
    → video_signal bytes at ≡ some ((cp, tc, mc, full), at + 30)
unfolding video_signal skip signal_bits full_value bits_of ◌>>=◌ pure
video_signal-signal_bits cp tc mc full bytes at a b c h =
    let colors = bits_of 8 cp ++ (bits_of 8 tc ++ bits_of 8 mc) in
    let e0 = u-one bytes at 1 h.0 in
    let (e1, h1) = field 3 5 (full_value full ∷ 1 ∷ colors) bytes (at + 1) (omega arith) h.1 in
    let e2 = u-one bytes (at + 1 + 3) (full_value full) h1.0 in
    let e3 = u-one bytes (at + 1 + 3 + 1) 1 h1.1.0 in
    let e4 = description-bits cp tc mc bytes (at + 1 + 3 + 1 + 1) a b c h1.1.1 in
    flag_set unspecified (do skip 3; full ← u 1; described (not (full == 0))) bytes at e0
    ∙ bind-some (skip 3) (λ _. do full ← u 1; described (not (full == 0))) bytes (at + 1)
        (bind-some (u 3) (λ _. pure tt) bytes (at + 1) e1)
    ∙ bind-some (u 1) (λ full. described (not (full == 0))) bytes (at + 1 + 3) e2
    ∙ ap (λ f. described f bytes (at + 1 + 3 + 1)) (full_bit full)
    ∙ bind-some (if_flag (2, 2, 2) description) (λ (c : ℕ × ℕ × ℕ). pure (c.0, c.1, c.2, full))
        bytes (at + 1 + 3 + 1) (flag_set (2, 2, 2) description bytes (at + 1 + 3 + 1) e3 ∙ e4)
    ∙ pair_cong refl (omega arith)
