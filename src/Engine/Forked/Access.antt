-- ===== src/Engine/Forked/Access.antt =====
-- The access list of ForkedState, which it keeps twice: in StateDB and in a list of its own.
use erebus_redgiant.Prelude.{◌≡◌, refl, ◌∙◌, true, ◌||◌, List, [], ◌∷◌, arith, Address, nat_eq}
use erebus_redgiant.Engine.StateDb.{StateDb, Remote}
use erebus_redgiant.Engine.Forked.{
  Core, is_member, add_address_to_access_list, add_addresses, prepare, copy, restore,
}

module _ (g : StateDb) (r : Remote) where
  add_addresses_warm :
      (l : List Address) (c : Core g) (b : Address)
      → g.warm (add_addresses g r l c).db b ≡ (is_member b l || g.warm c.db b)
  unfolding add_addresses is_member add_address_to_access_list
  add_addresses_warm [] c b = refl
  add_addresses_warm (a ∷ l) c b =
      add_addresses_warm l (add_address_to_access_list g r a c) b
      ∙ ground (arith, g.warm_add_address a c.db b)

  -- Copy makes exactly the addresses of the state's own list warm.
  copy_warm : (c : Core g) (b : Address) → g.warm (copy g r c).db b ≡ is_member b c.access_list
  unfolding copy prepare
  copy_warm c b =
      add_addresses_warm c.access_list _ b
      ∙ ground (arith, g.warm_prepare c.thash c.tx_index c.db b)

  -- Where an address is added after a copy was made and the state goes back to the copy, the
  -- address is warm again in the next copy of the state.
  pub copy_stale :
      (c : Core g) (a : Address)
      → g.warm (copy g r (restore g r (add_address_to_access_list g r a c) (copy g r c))).db a
        ≡ true
  unfolding restore add_address_to_access_list is_member
  copy_stale c a = copy_warm _ a ∙ ground arith
