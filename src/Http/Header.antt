-- ===== src/Http/Header.antt =====
-- The header X-Correlation-ID does not decide a request.
use ai_compliance_orquestrat.World.{World}
use ai_compliance_orquestrat.Settings.{Settings}
use ai_compliance_orquestrat.System.{Server, responding}
use ai_compliance_orquestrat.Session.{Action, ◌>>=◌, pure}
use ai_compliance_orquestrat.Api.{correlation_id_from_header}
use ai_compliance_orquestrat.Api.Readers.{Pydantic}
use ai_compliance_orquestrat.Http.{Request, serve, route, attempt, correlation_id_middleware}
use ai_compliance_orquestrat.Prelude.{String, ◌≡◌, none, some, ap, refl}

module _ ⦃w : World⦄ where
  correlation_id_from_header-malformed :
      (value : String)
      → w.parse_uuid value ≡ none
      → correlation_id_from_header (some value) ≡ correlation_id_from_header none
  unfolding correlation_id_from_header
  correlation_id_from_header-malformed value h = rw (h, correlation_id_from_header) refl

  -- A malformed X-Correlation-ID is as good as none: the response and the service's state are those
  -- of the same request without the header.
  pub serve_malformed_header :
      ⦃p : Pydantic⦄ (settings : Settings) (value : String) (r : Request) (s : Server)
      → w.parse_uuid value ≡ none
      → serve settings (some value) r s ≡ serve settings none r s
  unfolding serve correlation_id_middleware
  serve_malformed_header settings value r s h =
      ap
        (λ (m : Action String).
          responding
            (do
              correlation_id ← m
              outcome ← attempt (route settings r correlation_id)
              pure (record { correlation_id = correlation_id; outcome = outcome }))
            s)
        (correlation_id_from_header-malformed value h)
