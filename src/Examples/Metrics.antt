-- ===== src/Examples/Metrics.antt =====
-- The theorem about the metrics, over one job that completes and one that runs.
use rojo.Base.{List, [], ◌∷◌, arith, pos, bytes}
use rojo.Metrics.Totals.{Use, started, ended, waited, counted, IsTally, counted-IsTally}

abbrev day : List Use
unfolding bytes
day = waited (pos 3) ∷ ended (bytes "completed") (pos 7) ∷ started ∷ started ∷ []

counted-IsTally_example : IsTally day (counted day)
unfolding bytes
counted-IsTally_example =
    counted-IsTally day (omega arith, (omega arith, (omega arith, (omega arith, tt))))
