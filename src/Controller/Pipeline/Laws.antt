-- ===== src/Controller/Pipeline/Laws.antt =====
-- What a template of an artifact sees.
use flux_dev.Base.{[], arith, if◌then◌else◌, some, ◌≡◌}
use flux_dev.Controller.Pipeline.{template_data}
use flux_dev.Dict.{Dict, get, get-overlay, get-put, keys, overlay}
use flux_dev.Pipeline.Core.{values_key}
use flux_dev.Text.{Distinct, Text, ◌==◌}
use flux_dev.Tree.{Fields, Value, map}

-- In the scope of the templates, `values` is the tree of the values, and every other name is what the
-- pipeline has under it. The outputs have no key twice.
pub get-template_data :
    (k : Text) (outputs : Dict Value) (values : Fields)
    → Distinct (keys outputs)
    → get k (template_data outputs values)
      ≡ (if values_key == k then some (map values) else get k outputs)
unfolding template_data get
get-template_data k outputs values d =
    ground
      (arith, get-put values_key k (map values) (overlay [] outputs), get-overlay k [] outputs d)
