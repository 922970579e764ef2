-- ===== src/Grid/Parser/Reach.antt =====
-- What holds of a parser that has been fed bytes.
pub mod Steps
use zet.Prelude.{
  ℕ, ◌+◌, ◌≤◌, ◌<◌, ◌≡◌, refl, sym, ap, ◌∙◌, ◌⊎◌, inl, inr, Bool, true, false, List, [], ◌∷◌, ◌++◌,
  arith, length, length-append, if_cases, subst, not, ◌==◌, if◌then◌else◌,
}
use zet.Grid.Parser.{
  VtParser, EParserState, Step, Param, unknown, new_parser, add_param, collect_intermediate,
  transition_to, restart, bypass_limit_bytes, max_intermediates, max_param_bytes, dispatch_esc,
  dispatch_charset, ground_state, escape, escape_intermediate, csi_entry, csi_param,
  csi_intermediate, csi_ignore, dcs_entry, dcs_param, dcs_intermediate, dcs_passthrough, dcs_ignore,
  osc_string, sos_pm_apc_string, bypass,
}
use zet.Grid.Parser.Csi.{dispatch_csi, dispatch_private, dispatch_public, parse_params}
use zet.Grid.Parser.Feed.{Width, feed, feed_byte, feed_plain, feed_state, feed_escape, is_ground}

-- The states that a parser can be in.
abbrev pub IsUsed : EParserState → Type 0
IsUsed dcs_param = ⊥
IsUsed dcs_intermediate = ⊥
IsUsed dcs_passthrough = ⊥
IsUsed dcs_ignore = ⊥
IsUsed osc_string = ⊥
IsUsed sos_pm_apc_string = ⊥
IsUsed other = Unit {0}

pub record IsValid (p : VtParser) : Type 0 where
  pub params : length p.param_buf < max_param_bytes
  pub collected : length p.intermediates ≤ max_intermediates
  pub few : p.utf8_remaining ≤ 3
  pub begun : p.utf8_remaining ≤ p.utf8_seq_len
  pub only_ground : (is_ground p.state ≡ true) ⊎ (p.utf8_remaining ≡ 0)
  pub bypassed : p.bypass_bytes < bypass_limit_bytes
  pub used : IsUsed p.state

pub new_parser-IsValid : IsValid new_parser
new_parser-IsValid = record {
  params = omega arith;
  collected = omega arith;
  few = omega arith;
  begun = omega arith;
  only_ground = inl refl;
  bypassed = omega arith;
  used = tt;
}

pub transition_to-IsValid : (p : VtParser) → IsValid p → IsValid (transition_to p ground_state)
unfolding transition_to
transition_to-IsValid p v = record {
  params = omega arith;
  collected = omega arith;
  few = v.few;
  begun = v.begun;
  only_ground = inl refl;
  bypassed = omega arith;
  used = tt;
}

pub counted-IsValid : (p : VtParser) → IsValid p → IsValid (unknown p).0
counted-IsValid p v = record {
  params = v.params;
  collected = v.collected;
  few = v.few;
  begun = v.begun;
  only_ground = v.only_ground;
  bypassed = v.bypassed;
  used = v.used;
}

-- A dispatch changes at most the number of unknown sequences.
abbrev Dispatched : VtParser → VtParser → Type 0
Dispatched p p' = (p' ≡ p) ⊎ (p' ≡ (unknown p).0)

Dispatched-IsValid : {p p' : VtParser} → Dispatched p p' → IsValid p → IsValid p'
Dispatched-IsValid {p} {p'} (inl e) v = subst IsValid (sym e) v
Dispatched-IsValid {p} {p'} (inr e) v = subst IsValid (sym e) (counted-IsValid p v)

dispatch_charset-Dispatched :
    (p : VtParser) (is : List ℕ) (final : ℕ) → Dispatched p (dispatch_charset p is final).0
dispatch_charset-Dispatched p [] final = ground arith
dispatch_charset-Dispatched p (i ∷ []) final = ground arith
dispatch_charset-Dispatched p (i ∷ j ∷ is) final = inr refl

dispatch_esc-Dispatched : (p : VtParser) (final : ℕ) → Dispatched p (dispatch_esc p final).0
unfolding dispatch_esc
dispatch_esc-Dispatched p final = dispatch_charset-Dispatched p p.intermediates final

dispatch_private-Dispatched :
    (p : VtParser) (ps : List Param) (final : ℕ) → Dispatched p (dispatch_private p ps final).0
dispatch_private-Dispatched p ps final = ground arith

dispatch_public-Dispatched :
    (rows : ℕ) (p : VtParser) (ps : List Param) (final : ℕ)
    → Dispatched p (dispatch_public rows p ps final).0
dispatch_public-Dispatched rows p ps final = ground arith

dispatch_csi-Dispatched :
    (rows : ℕ) (p : VtParser) (final : ℕ) → Dispatched p (dispatch_csi rows p final).0
unfolding dispatch_csi
dispatch_csi-Dispatched rows p final =
    if_cases {A = Step} (λ s. Dispatched p s.0) (not (p.private_marker == 0)) _ _
      (λ _. dispatch_private-Dispatched p (parse_params p) final)
      (λ _. dispatch_public-Dispatched rows p (parse_params p) final)

-- What holds of a parser that has taken a step.
abbrev pub Valid : Step → Type 0
Valid s = IsValid s.0

pub esc_ground-IsValid :
    (p : VtParser) (final : ℕ)
    → IsValid p
    → IsValid (transition_to (dispatch_esc p final).0 ground_state)
esc_ground-IsValid p final v =
    transition_to-IsValid _ (Dispatched-IsValid (dispatch_esc-Dispatched p final) v)

pub csi_ground-IsValid :
    (rows : ℕ) (p : VtParser) (final : ℕ)
    → IsValid p
    → IsValid (transition_to (dispatch_csi rows p final).0 ground_state)
csi_ground-IsValid rows p final v =
    transition_to-IsValid _ (Dispatched-IsValid (dispatch_csi-Dispatched rows p final) v)
