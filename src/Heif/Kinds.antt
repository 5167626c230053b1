-- ===== src/Heif/Kinds.antt =====
-- src/opencodecs/backends/_heifbox.py: the types of boxes, as bytes.
use opencodecs.Common.{ℕ, List, [], ◌∷◌}

abbrev pub ftyp_kind : List ℕ
ftyp_kind = 102 ∷ 116 ∷ 121 ∷ 112 ∷ []

abbrev pub meta_kind : List ℕ
meta_kind = 109 ∷ 101 ∷ 116 ∷ 97 ∷ []

abbrev pub mdat_kind : List ℕ
mdat_kind = 109 ∷ 100 ∷ 97 ∷ 116 ∷ []

abbrev pub hdlr_kind : List ℕ
hdlr_kind = 104 ∷ 100 ∷ 108 ∷ 114 ∷ []

abbrev pub pitm_kind : List ℕ
pitm_kind = 112 ∷ 105 ∷ 116 ∷ 109 ∷ []

abbrev pub iinf_kind : List ℕ
iinf_kind = 105 ∷ 105 ∷ 110 ∷ 102 ∷ []

abbrev pub infe_kind : List ℕ
infe_kind = 105 ∷ 110 ∷ 102 ∷ 101 ∷ []

abbrev pub iref_kind : List ℕ
iref_kind = 105 ∷ 114 ∷ 101 ∷ 102 ∷ []

abbrev pub iloc_kind : List ℕ
iloc_kind = 105 ∷ 108 ∷ 111 ∷ 99 ∷ []

abbrev pub idat_kind : List ℕ
idat_kind = 105 ∷ 100 ∷ 97 ∷ 116 ∷ []

abbrev pub iprp_kind : List ℕ
iprp_kind = 105 ∷ 112 ∷ 114 ∷ 112 ∷ []

abbrev pub ipco_kind : List ℕ
ipco_kind = 105 ∷ 112 ∷ 99 ∷ 111 ∷ []

abbrev pub ipma_kind : List ℕ
ipma_kind = 105 ∷ 112 ∷ 109 ∷ 97 ∷ []

abbrev pub ispe_kind : List ℕ
ispe_kind = 105 ∷ 115 ∷ 112 ∷ 101 ∷ []

abbrev pub pixi_kind : List ℕ
pixi_kind = 112 ∷ 105 ∷ 120 ∷ 105 ∷ []

abbrev pub colr_kind : List ℕ
colr_kind = 99 ∷ 111 ∷ 108 ∷ 114 ∷ []

abbrev pub clap_kind : List ℕ
clap_kind = 99 ∷ 108 ∷ 97 ∷ 112 ∷ []

abbrev pub imir_kind : List ℕ
imir_kind = 105 ∷ 109 ∷ 105 ∷ 114 ∷ []

abbrev pub irot_kind : List ℕ
irot_kind = 105 ∷ 114 ∷ 111 ∷ 116 ∷ []

abbrev pub auxl_kind : List ℕ
auxl_kind = 97 ∷ 117 ∷ 120 ∷ 108 ∷ []

abbrev pub auxc_kind : List ℕ
auxc_kind = 97 ∷ 117 ∷ 120 ∷ 67 ∷ []

abbrev pub nclx_type : List ℕ
nclx_type = 110 ∷ 99 ∷ 108 ∷ 120 ∷ []

abbrev pub pict_type : List ℕ
pict_type = 112 ∷ 105 ∷ 99 ∷ 116 ∷ []

abbrev pub prof_type : List ℕ
prof_type = 112 ∷ 114 ∷ 111 ∷ 102 ∷ []
