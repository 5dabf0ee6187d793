-- ===== src/Ethdev/Flow/Pattern.antt =====
-- ethdev/flow/flow.go: the arrays that cPattern and cActions make for the C library, of items and
-- actions that are known by their interface (ethdev/flow/item.go, ethdev/flow/action.go).
pub mod Read
use go_dpdk.Base.{ℕ, Option, none, some, List, [], ◌∷◌}

-- The interfaces ItemStruct and Action: Reload changes the state, Pointer reads it.
pub record ItemOps (S I : Type 0) : Type 0 where
  pub type_of : I → ℕ
  pub reload : S → I → S
  pub pointer : S → I → ℕ

-- `nil` for a missing mask or last is `none`.
pub record Item (I : Type 0) : Type 0 where
  pub spec : I
  pub last : Option I
  pub mask : Option I

-- The fields of `struct rte_flow_item` and of `struct rte_flow_action`.
pub record CItem : Type 0 where
  pub type : ℕ
  pub spec : ℕ
  pub last : ℕ
  pub mask : ℕ

pub record CAction : Type 0 where
  pub type : ℕ
  pub conf : ℕ

-- What `make` leaves in the last place. Its type is END, which the code asserts to be 0.
abbrev pub end_item : CItem
end_item = record { type = 0; spec = 0; last = 0; mask = 0 }

abbrev pub end_action : CAction
end_action = record { type = 0; conf = 0 }

module _ {S I : Type 0} (ops : ItemOps S I) where
  -- `if item := ...; item != nil`
  unfoldable pub c_part : S → Option I → S × ℕ
  c_part s none = (s, 0)
  c_part s (some i) = let s' = ops.reload s i in (s', ops.pointer s' i)

  -- One round of the loop of cPattern.
  unfoldable pub c_item : S → Item I → S × CItem
  unfolding c_part
  c_item s item =
      let s1 = ops.reload s item.spec in
      let mask = c_part s1 item.mask in
      let last = c_part mask.0 item.last in
      (
        last.0,
        record {
          type = ops.type_of item.spec;
          spec = ops.pointer s1 item.spec;
          last = last.1;
          mask = mask.1;
        },
      )

  unfoldable pub c_pattern : S → List (Item I) → S × List CItem
  unfolding c_item
  c_pattern s [] = (s, end_item ∷ [])
  c_pattern s (item ∷ pattern) =
      let first = c_item s item in
      let rest = c_pattern first.0 pattern in (rest.0, first.1 ∷ rest.1)

  unfoldable pub c_actions : S → List I → S × List CAction
  c_actions s [] = (s, end_action ∷ [])
  c_actions s (a ∷ actions) =
      let s1 = ops.reload s a in
      let rest = c_actions s1 actions in
      (rest.0, record { type = ops.type_of a; conf = ops.pointer s1 a } ∷ rest.1)
