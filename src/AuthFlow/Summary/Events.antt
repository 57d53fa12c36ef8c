-- ===== src/AuthFlow/Summary/Events.antt =====
-- Where an event counts.
use scout_audit.Base.{ℕ, ◌≡◌, ◌&&◌, List, [], any}
use scout_audit.AuthFlow.Mir.{BitSet, Location, TyCtxt, Body, same_location}
use scout_audit.AuthFlow.Domain.{FnSummary, Signer, ParamInfo, AuthEvent, CallSite}
use scout_audit.AuthFlow.Places.{find_best_location_for_event, map_events_to_locations}
use scout_audit.AuthFlow.Places.Tables.{Keyed, at_key, any-push_at}
use scout_audit.AuthFlow.Places.InBody.{same_location_iff}
use scout_audit.AuthFlow.Analysis.Effects.{signs}
use scout_audit.AuthFlow.Engine.Paths.{executed, signs_in}
use scout_audit.AuthFlow.Summary.{analysis_of}

-- A signer signs where a location is executed just if an event of the signer has that location as
-- its best one.
pub signs_in-executed :
    (B : BitSet) (tcx : TyCtxt) (body : Body) (params : List ParamInfo) (events : List AuthEvent)
    (callsites : List CallSite) (fn_summaries : Keyed ℕ (FnSummary B)) (w : Signer) (loc : Location)
    → signs_in B (analysis_of B tcx body params events callsites fn_summaries) w (executed loc)
      ≡ any
          (λ (event : AuthEvent).
            at_key same_location (find_best_location_for_event body event.span) loc
            && signs w event)
          events
unfolding analysis_of map_events_to_locations
signs_in-executed B tcx body params events callsites fn_summaries w loc =
    any-push_at same_location same_location_iff (signs w)
      (λ (event : AuthEvent). find_best_location_for_event body event.span) events [] loc
