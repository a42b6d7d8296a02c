-- ===== src/Lab/Tests.antt =====
-- The theorems on the laboratory at concrete measurements, over whole numbers.
use newport_ms.Base.{ℕ, ◌≡◌, refl, String, false, Option, none, some, List, [], ◌∷◌}
use newport_ms.Lab.Numbers.{natural}
use newport_ms.Lab.Spec.{SpecBounds}
use newport_ms.Lab.Oos as Oos
use newport_ms.Lab.Certificate.{
  CertificateResultRow, CertificateRow, CertificateSpecRow, number, build_certificate_rows,
}
use newport_ms.Lab.Certificate.Laws.{RowsOf, build_certificate_rows_lem}

abbrev purity : SpecBounds natural
purity = record { min_val = some 40; max_val = some 50 }

abbrev oos_path : List Oos.OosStatus
oos_path =
    Oos.closed ∷ Oos.effectiveness_check ∷ Oos.capa_defined ∷ Oos.investigating ∷ Oos.open_case ∷ []

closed_life : Oos.OosLife oos_path Oos.closed
unfolding Oos.can_oos_transition Oos.oos_transitions
closed_life = Oos.next (Oos.next (Oos.next (Oos.next Oos.start refl) refl) refl) refl

abbrev iso : String → Option String
iso t = some t

abbrev result : CertificateResultRow natural iso
result = record {
  value = number 44;
  parameter_id = "P";
  result_unit = none;
  is_out_of_spec = false;
  method = none;
  result_verified_at = some "2026-01-05";
  parameter = record { code = "N"; name_ar = "nitrogen"; unit = some "%" };
}

abbrev results : List (CertificateResultRow natural iso)
results = result ∷ record result { result_verified_at = none } ∷ []

abbrev specs : List (CertificateSpecRow natural iso)
specs = record { spec_parameter_id = "P"; spec_bounds = purity } ∷ []

build_certificate_rows_lem_example :
    (rows : List (CertificateRow natural iso)) × (build_certificate_rows natural iso specs false
        results
      ≡ some rows)
    × RowsOf natural iso specs results rows
build_certificate_rows_lem_example =
    build_certificate_rows_lem natural iso specs results (refl, (refl, tt))

abbrev sample_status : String
sample_status = "VERIFIED"

abbrev open_cases : ℕ
open_cases = 0
