-- ===== src/Metrics/Recorder.antt =====
-- The recorder of src/metrics.rs. `Handle` and `render` are the exporter's; the static `RECORDER` is
-- an argument that comes back.
use fluss_gateway.Base.{◌≡◌, refl, Text, text, Option, none, some, [], Result, ok, err}

module _ {Handle : Type 0} where
  -- `OnceLock::get_or_init`: the first handle stays.
  abbrev get_or_init : Handle → Option Handle → Option Handle
  get_or_init handle none = some handle
  get_or_init handle (some first) = some first

  -- The argument is what the builder of the exporter returns.
  unfoldable pub install :
      Result Handle Text → Option Handle → Result (Unit {0}) Text × Option Handle
  install (err e) recorder = (err e, recorder)
  install (ok handle) recorder = (ok tt, get_or_init handle recorder)

  module _ (render : Handle → Text) where
    unfoldable pub scrape : Option Handle → Text
    scrape none = []
    scrape (some handle) = render handle

    -- The content type and the body of `/metrics`.
    unfoldable pub metrics_handler : Option Handle → Text × Text
    unfolding scrape
    metrics_handler recorder = (text "text/plain; version=0.0.4; charset=utf-8", scrape recorder)

    -- Before an install succeeds the answer is empty; from the first that succeeds on it is what the
    -- handle of that one renders, whatever later ones return.
    metrics_handler-install :
        (handle : Handle) (later : Result Handle Text)
        → ((metrics_handler none).1 ≡ [])
          × ((metrics_handler (install later (install (ok handle) none).1).1).1 ≡ render handle)
    unfolding metrics_handler install
    metrics_handler-install handle (ok other) = (refl, refl)
    metrics_handler-install handle (err e) = (refl, refl)
