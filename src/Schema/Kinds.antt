-- ===== src/Schema/Kinds.antt =====
-- The closed vocabularies: EDGE_KINDS, NODE_KINDS and REFERENCE_EDGE_KINDS.
use codespine.Common.{
  ℕ, zero, suc, ◌≡◌, refl, ap, ◌↔◌, Bool, true, List, [], ◌∷◌, Text, codes, nat_beq, nat_beq_iff,
  Key,
}

pub data EdgeKind : Type 0 where
  contains imports exports extends implements uses_type returns param_type calls instantiates
        overrides reads writes reads_config calls_external handles calls_runtime :
      EdgeKind

pub data NodeKind : Type 0 where
  module_file class interface type_alias enum function method property parameter variable
        external_module config_flag external_api endpoint :
      NodeKind

-- EDGE_KINDS, in the order of the source.
abbrev pub edge_kinds : List EdgeKind
edge_kinds =
    contains ∷ imports ∷ exports ∷ extends ∷ implements ∷ uses_type ∷ returns ∷ param_type ∷ calls
    ∷ instantiates ∷ overrides ∷ reads ∷ writes ∷ reads_config ∷ calls_external ∷ handles
    ∷ calls_runtime ∷ []

-- REFERENCE_EDGE_KINDS: the kinds that count as a use of their target.
abbrev pub reference_edge_kinds : List EdgeKind
reference_edge_kinds =
    calls ∷ extends ∷ implements ∷ uses_type ∷ returns ∷ param_type ∷ instantiates ∷ reads
    ∷ overrides ∷ handles ∷ []

-- The position in EDGE_KINDS.
abbrev edge_kind_index : EdgeKind → ℕ
edge_kind_index contains = 0
edge_kind_index imports = 1
edge_kind_index exports = 2
edge_kind_index extends = 3
edge_kind_index implements = 4
edge_kind_index uses_type = 5
edge_kind_index returns = 6
edge_kind_index param_type = 7
edge_kind_index calls = 8
edge_kind_index instantiates = 9
edge_kind_index overrides = 10
edge_kind_index reads = 11
edge_kind_index writes = 12
edge_kind_index reads_config = 13
edge_kind_index calls_external = 14
edge_kind_index handles = 15
edge_kind_index calls_runtime = 16

edge_kind_at : ℕ → EdgeKind
edge_kind_at zero = contains
edge_kind_at (suc zero) = imports
edge_kind_at (suc (suc zero)) = exports
edge_kind_at (suc (suc (suc zero))) = extends
edge_kind_at (suc (suc (suc (suc zero)))) = implements
edge_kind_at (suc (suc (suc (suc (suc zero))))) = uses_type
edge_kind_at (suc (suc (suc (suc (suc (suc zero)))))) = returns
edge_kind_at (suc (suc (suc (suc (suc (suc (suc zero))))))) = param_type
edge_kind_at (suc (suc (suc (suc (suc (suc (suc (suc zero)))))))) = calls
edge_kind_at (suc (suc (suc (suc (suc (suc (suc (suc (suc zero))))))))) = instantiates
edge_kind_at (suc (suc (suc (suc (suc (suc (suc (suc (suc (suc zero)))))))))) = overrides
edge_kind_at (suc (suc (suc (suc (suc (suc (suc (suc (suc (suc (suc zero))))))))))) = reads
edge_kind_at (suc (suc (suc (suc (suc (suc (suc (suc (suc (suc (suc (suc zero)))))))))))) = writes
edge_kind_at (suc (suc (suc (suc (suc (suc (suc (suc (suc (suc (suc (suc (suc zero))))))))))))) =
    reads_config
edge_kind_at
      (suc (suc (suc (suc (suc (suc (suc (suc (suc (suc (suc (suc (suc (suc zero)))))))))))))) =
    calls_external
edge_kind_at
      (suc
        (suc (suc (suc (suc (suc (suc (suc (suc (suc (suc (suc (suc (suc (suc zero))))))))))))))) =
    handles
edge_kind_at _ = calls_runtime

-- The text of an edge kind.
unfoldable pub edge_kind_name : EdgeKind → Text
edge_kind_name contains = codes "CONTAINS"
edge_kind_name imports = codes "IMPORTS"
edge_kind_name exports = codes "EXPORTS"
edge_kind_name extends = codes "EXTENDS"
edge_kind_name implements = codes "IMPLEMENTS"
edge_kind_name uses_type = codes "USES_TYPE"
edge_kind_name returns = codes "RETURNS"
edge_kind_name param_type = codes "PARAM_TYPE"
edge_kind_name calls = codes "CALLS"
edge_kind_name instantiates = codes "INSTANTIATES"
edge_kind_name overrides = codes "OVERRIDES"
edge_kind_name reads = codes "READS"
edge_kind_name writes = codes "WRITES"
edge_kind_name reads_config = codes "READS_CONFIG"
edge_kind_name calls_external = codes "CALLS_EXTERNAL"
edge_kind_name handles = codes "HANDLES"
edge_kind_name calls_runtime = codes "CALLS_RUNTIME"

-- The text of a node kind.
unfoldable pub node_kind_name : NodeKind → Text
node_kind_name module_file = codes "Module"
node_kind_name class = codes "Class"
node_kind_name interface = codes "Interface"
node_kind_name type_alias = codes "TypeAlias"
node_kind_name enum = codes "Enum"
node_kind_name function = codes "Function"
node_kind_name method = codes "Method"
node_kind_name property = codes "Property"
node_kind_name parameter = codes "Parameter"
node_kind_name variable = codes "Variable"
node_kind_name external_module = codes "ExternalModule"
node_kind_name config_flag = codes "ConfigFlag"
node_kind_name external_api = codes "ExternalAPI"
node_kind_name endpoint = codes "Endpoint"

edge_kind_at-index : (k : EdgeKind) → edge_kind_at (edge_kind_index k) ≡ k
unfolding edge_kind_at
edge_kind_at-index contains = refl
edge_kind_at-index imports = refl
edge_kind_at-index exports = refl
edge_kind_at-index extends = refl
edge_kind_at-index implements = refl
edge_kind_at-index uses_type = refl
edge_kind_at-index returns = refl
edge_kind_at-index param_type = refl
edge_kind_at-index calls = refl
edge_kind_at-index instantiates = refl
edge_kind_at-index overrides = refl
edge_kind_at-index reads = refl
edge_kind_at-index writes = refl
edge_kind_at-index reads_config = refl
edge_kind_at-index calls_external = refl
edge_kind_at-index handles = refl
edge_kind_at-index calls_runtime = refl

abbrev pub edge_kind_beq : EdgeKind → EdgeKind → Bool
edge_kind_beq a b = nat_beq (edge_kind_index a) (edge_kind_index b)

pub edge_kind_beq_iff : (a b : EdgeKind) → (edge_kind_beq a b ≡ true) ↔ (a ≡ b)
edge_kind_beq_iff a b = (
  λ h. cc (edge_kind_at-index a, edge_kind_at-index b, (nat_beq_iff _ _).0 h),
  λ e. (nat_beq_iff _ _).1 (ap edge_kind_index e),
)

instance abbrev pub edge_kind_key : Key EdgeKind
edge_kind_key = record { same = edge_kind_beq; same_iff = edge_kind_beq_iff }
