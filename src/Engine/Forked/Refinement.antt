-- ===== src/Engine/Forked/Refinement.antt =====
-- The forked state against the world in memory, call by call.
use erebus_redgiant.Prelude.{
  ℕ, zero, suc, ◌≡◌, refl, ap, true, Option, none, some, List, [], ◌∷◌, arith, ◌==◌, Address, Hash,
  nat_eq, ◌∙◌,
}
use erebus_redgiant.Prelude.Map.{lookup}
use erebus_redgiant.Engine.StateDb.{StateDb, Chain, reader_of}
use erebus_redgiant.Engine.World.{World, world_of, world_step, answers, followed_by, first_then}
use erebus_redgiant.Engine.Forked.{
  flag, row, Core, History, start, entry, size, snoc, saved, new_forked_state, with_storage,
  get_balance, get_nonce, get_code, get_state, add_balance, sub_balance, set_nonce, set_code,
  set_state, copy, snapshot, revert_to_snapshot,
}
use erebus_redgiant.Engine.Forked.Calls.{
  Op, ask_balance, ask_nonce, ask_code, ask_state, pay, charge, put_nonce, put_code, put_state,
  warm_up, begin_tx, take_snapshot, go_back, Answer, done, amount, number, bytes, forked_step,
}
use erebus_redgiant.Engine.Forked.Inherit.{Shows, with_account-Shows}
use erebus_redgiant.Engine.Forked.Words.{with_storage-Shows}
use erebus_redgiant.Engine.Forked.Setters.{
  add_balance-Shows, sub_balance-Shows, set_nonce-Shows, set_code-Shows, set_state-Shows,
  mark_cleared-Shows, add_address_to_access_list-Shows, prepare-Shows, copy-Shows, restore-Shows,
}

module _ (g : StateDb) (n : Chain) where
  -- Snapshot for snapshot, the one history shows the other.
  abbrev pub ShowsAll : History (Core g) → History World → Type 0
  ShowsAll start start = Unit
  ShowsAll start (entry w p q) = ⊥
  ShowsAll (entry c o r) start = ⊥
  ShowsAll (entry c o r) (entry w p q) = Shows g n c w × (ShowsAll o p × ShowsAll r q)

  abbrev pub Refines : Core g × History (Core g) → World × History World → Type 0
  Refines (c, h) (w, k) = Shows g n c w × ShowsAll h k

  -- Both panic, or both give the same answer and states that correspond.
  abbrev pub Matches :
      Option (Answer × (Core g × History (Core g)))
      → Option (Answer × (World × History World))
      → Type 0
  Matches none none = Unit
  Matches none (some y) = ⊥
  Matches (some x) none = ⊥
  Matches (some (x, s)) (some (y, t)) = (x ≡ y) × Refines s t

  size-ShowsAll : (h : History (Core g)) (k : History World) → ShowsAll h k → size h ≡ size k
  unfolding size
  size-ShowsAll start start r = refl
  size-ShowsAll start (entry w p q) r = absurd r
  size-ShowsAll (entry c o r) start s = absurd s
  size-ShowsAll (entry c o r) (entry w p q) s = ap suc (size-ShowsAll r q s.1.1)

  snoc-ShowsAll :
      (h : History (Core g)) (k : History World) (c : Core g) (w : World) (o : History (Core g))
      (p : History World)
      → ShowsAll h k
      → Shows g n c w
      → ShowsAll o p
      → ShowsAll (snoc h c o) (snoc k w p)
  unfolding snoc
  snoc-ShowsAll start start c w o p r s t = (s, (t, tt))
  snoc-ShowsAll start (entry x y z) c w o p r s t = absurd r
  snoc-ShowsAll (entry x y z) start c w o p r s t = absurd r
  snoc-ShowsAll (entry x y z) (entry a b d) c w o p r s t =
      (r.0, (r.1.0, snoc-ShowsAll z d c w o p r.1.1 s t))

  go_back-Matches :
      (i : ℕ) (c : Core g) (h : History (Core g)) (w : World) (k : History World)
      → ShowsAll h k
      → Matches (forked_step g (reader_of n) (go_back i) (c, h)) (world_step (go_back i) (w, k))
  unfolding forked_step world_step revert_to_snapshot saved
  go_back-Matches i c start w start r = tt
  go_back-Matches i c start w (entry x y z) r = absurd r
  go_back-Matches i c (entry x y z) w start r = absurd r
  go_back-Matches zero c (entry x y z) w (entry a b d) r =
      (refl, (restore-Shows g n a c x r.0, r.1.0))
  go_back-Matches (suc i) c (entry x y z) w (entry a b d) r = go_back-Matches i c z w d r.1.1

  put_state_some :
      (a : Address) (k v : Hash) (c e : Core g) (h : History (Core g))
      → set_state g (reader_of n) a k v c ≡ some e
      → forked_step g (reader_of n) (put_state a k v) (c, h) ≡ some (done, (e, h))
  unfolding forked_step
  put_state_some a k v c e h p = rw (p, forked_step) refl

  put_state-Matches :
      (a : Address) (k v : Hash) (c : Core g) (h : History (Core g)) (w : World) (l : History World)
      → Shows g n c w
      → ShowsAll h l
      → Matches
          (forked_step g (reader_of n) (put_state a k v) (c, h))
          (world_step (put_state a k v) (w, l))
  unfolding world_step set_state
  put_state-Matches a k v c h w l s r =
      let d = with_storage g (reader_of n) a k c in
      let t = with_storage-Shows g n a k c w s in
      let u = set_state-Shows g n d w t.0 a t.1.0 k v t.1.1 in
      let (e, (p, q)) =
        mark_cleared-Shows g n (record d { db = g.set_state a k v d.db }) _ u a k (v == 0) t.1.0 in
      rw (put_state_some a k v c e h p) (refl, (q, r))

  known_balance :
      (c : Core g) (w : World) (a : Address)
      → Shows g n c w × (flag a c.state_inherited ≡ true)
      → (g.account c.db a).balance ≡ w.balance a
  known_balance c w a (s, p) = ground (arith, p, s.balance a)

  known_nonce :
      (c : Core g) (w : World) (a : Address)
      → Shows g n c w × (flag a c.state_inherited ≡ true)
      → (g.account c.db a).nonce ≡ w.nonce a
  known_nonce c w a (s, p) = ground (arith, p, s.nonce a)

  known_code :
      (c : Core g) (w : World) (a : Address)
      → Shows g n c w × (flag a c.state_inherited ≡ true)
      → (g.account c.db a).code ≡ w.code a
  known_code c w a (s, p) = ground (arith, p, s.code a)

  known_word :
      (c : Core g) (w : World) (a : Address) (k : Hash)
      → Shows g n c w
      → flag k (row a c.storage_inherited) ≡ true
      → (g.account c.db a).storage k ≡ w.storage a k
  known_word c w a k s p = ground (arith, p, s.storage a k)

  step-Matches :
      (o : Op) (c : Core g) (h : History (Core g)) (w : World) (l : History World)
      → Shows g n c w
      → ShowsAll h l
      → Matches (forked_step g (reader_of n) o (c, h)) (world_step o (w, l))
  unfolding forked_step world_step get_balance get_nonce get_code get_state add_balance sub_balance
      set_nonce set_code snapshot
  step-Matches (ask_balance a) c h w l s r =
      let t = with_account-Shows g n a c w s in (ap amount (known_balance _ w a t), (t.0, r))
  step-Matches (ask_nonce a) c h w l s r =
      let t = with_account-Shows g n a c w s in (ap number (known_nonce _ w a t), (t.0, r))
  step-Matches (ask_code a) c h w l s r =
      let t = with_account-Shows g n a c w s in (ap bytes (known_code _ w a t), (t.0, r))
  step-Matches (ask_state a k) c h w l s r =
      let t = with_storage-Shows g n a k c w s in
      (ap number (known_word _ w a k t.0 t.1.1), (t.0, r))
  step-Matches (pay a x) c h w l s r =
      let t = with_account-Shows g n a c w s in (refl, (add_balance-Shows g n _ w t.0 a t.1 x, r))
  step-Matches (charge a x) c h w l s r =
      let t = with_account-Shows g n a c w s in (refl, (sub_balance-Shows g n _ w t.0 a t.1 x, r))
  step-Matches (put_nonce a x) c h w l s r =
      let t = with_account-Shows g n a c w s in (refl, (set_nonce-Shows g n _ w t.0 a t.1 x, r))
  step-Matches (put_code a x) c h w l s r =
      let t = with_account-Shows g n a c w s in (refl, (set_code-Shows g n _ w t.0 a t.1 x, r))
  step-Matches (put_state a k v) c h w l s r = put_state-Matches a k v c h w l s r
  step-Matches (warm_up a) c h w l s r = (refl, (add_address_to_access_list-Shows g n w a c s, r))
  step-Matches (begin_tx t i) c h w l s r = (refl, (prepare-Shows g n w t i c s, r))
  step-Matches take_snapshot c h w l s r = (
    ap number (size-ShowsAll h l r),
    (s, snoc-ShowsAll h l (copy g (reader_of n) c) w h l r (copy-Shows g n w c s) r),
  )
  step-Matches (go_back i) c h w l s r = go_back-Matches i c h w l r

  followed_by-Matches :
      (f : Core g × History (Core g) → Option (List Answer))
      (e : World × History World → Option (List Answer))
      (x : Option (Answer × (Core g × History (Core g))))
      (y : Option (Answer × (World × History World)))
      → Matches x y
      → ((s : Core g × History (Core g)) (t : World × History World) → Refines s t → f s ≡ e t)
      → followed_by x f ≡ followed_by y e
  followed_by-Matches f e none none m h = refl
  followed_by-Matches f e none (some y) m h = absurd m
  followed_by-Matches f e (some x) none m h = absurd m
  followed_by-Matches f e (some (x, s)) (some (y, t)) m h =
      ap (λ a. first_then a (f s)) m.0 ∙ ap (first_then y) (h s t m.1)

  run-Matches :
      (ops : List Op) (s : Core g × History (Core g)) (t : World × History World)
      → Refines s t
      → answers (forked_step g (reader_of n)) s ops ≡ answers world_step t ops
  unfolding answers
  run-Matches [] s t r = refl
  run-Matches (o ∷ ops) (c, h) (w, l) r =
      followed_by-Matches _ _ _ _ (step-Matches o c h w l r.0 r.1) (run-Matches ops)

  new-Shows : Shows g n (new_forked_state g (reader_of n)) (world_of n)
  unfolding new_forked_state flag row lookup
  new-Shows = record {
    fresh_db = λ a p. g.account_empty a;
    fresh_row = λ a k p. refl;
    has_dirty = λ a p. absurd (cc p);
    unfetched = λ a k p. rw g.account_empty refl;
    balance = λ a. refl;
    nonce = λ a. refl;
    code = λ a. refl;
    storage = λ a k. refl;
  }

  -- Over a chain that answers every question, a new forked state answers every list of calls,
  -- snapshots and reverts included, as the world in memory does; it panics exactly where that
  -- does, on a revert to an id that is not in the list.
  pub answers_forked :
      (ops : List Op)
      → answers (forked_step g (reader_of n)) (new_forked_state g (reader_of n), start) ops
        ≡ answers world_step (world_of n, start) ops
  answers_forked ops = run-Matches ops _ _ (new-Shows, tt)
