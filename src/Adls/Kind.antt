-- ===== src/Adls/Kind.antt =====
-- src/adls.rs: the kinds of node whose source field the program reads.
use zwirn.Prelude.{ℕ, Option, none, some, ◌==◌, if◌then◌else◌}

pub data NodeKind : Type 0 where
  shader canvas dsp lyte_dsp : NodeKind

-- `NodeKind::from_type_id`.
unfoldable pub from_type_id : ℕ → Option NodeKind
from_type_id type_id =
    if type_id == 74
    then some shader
    else if type_id == 78
    then some canvas
    else if type_id == 79
    then some dsp
    else if type_id == 82
    then some lyte_dsp
    else none
