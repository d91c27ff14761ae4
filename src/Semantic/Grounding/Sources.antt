-- ===== src/Semantic/Grounding/Sources.antt =====
-- The loop over the sources of a request.
use amocrm_analytics.Base.{
  ℕ, ◌+◌, Bool, false, ◌&&◌, ◌||◌, not, Option, none, some, List, [], ◌∷◌, leb, ◌==◌, any,
  if◌then◌else◌,
}
use amocrm_analytics.Semantic.Grounding.{
  Source, task_source, call_transcript, AnalysisRequest, same_id, is_given, is_kind,
}

module _ (text_hash : ℕ → ℕ) (request : AnalysisRequest) where
  -- The test of a source; `seen` are those before it, and `characters` the size of their texts with its.
  unfoldable pub source_is_valid : (seen : List ℕ) (characters : ℕ) → Source → Bool
  source_is_valid seen characters s =
      s.is_well_formed
      && (not (any (λ id. id == s.id) seen)
          && (s.deal == request.deal
              && (s.owner == request.owner
                  && ((not (is_given s.subject) || same_id s.subject request.subject)
                      && ((not (is_kind s.kind task_source)
                            || (is_given s.subject && same_id s.assigned (some request.owner)))
                          && (s.source_hash == text_hash s.text && leb characters 128_000))))))

  -- `none` if a source is not valid, and otherwise whether one of them leaves something open.
  unfoldable pub check_sources : (seen : List ℕ) (characters : ℕ) → List Source → Option Bool
  check_sources seen characters [] = some false
  check_sources seen characters (s ∷ ss) =
      if not (source_is_valid seen (characters + s.size) s)
      then none
      else elim (check_sources (s.id ∷ seen) (characters + s.size) ss) [
        | none ↦ none
        | some is_open ↦ some (is_kind s.kind call_transcript || (s.is_risky || is_open))
      ]
