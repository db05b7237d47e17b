-- ===== src/AsyncStream/Manager/Handed.antt =====
-- setConnection: which call-backs the new streams have.
use helens.Prelude.{
  ℕ, ◌≡◌, refl, Bool, false, ◌&&◌, ◌||◌, List, [], ◌∷◌, ◌++◌, ◌==◌, arith, if◌then◌else◌,
}
use helens.AsyncStream.Manager.{
  Callbacks, Manager, is_set, set_connect_of, set_disconnect_of, hand_callbacks, set_connection,
}

abbrev pub is_in : ℕ → List ℕ → Bool
is_in i [] = false
is_in i (k ∷ ks) = k == i || is_in i ks

module _ {Cb : Type 0} where
  -- One round of the loop, for a manager with a connect call-back
  handed : Callbacks Cb → (ℕ → Callbacks Cb) → ℕ → ℕ → Callbacks Cb
  handed own g i = set_disconnect_of i own.disconnect (set_connect_of i own.connect g)

  handed_lem :
      (own : Callbacks Cb) (g : ℕ → Callbacks Cb) (i k : ℕ)
      → handed own g i k ≡ (if i == k then own else g k)
  unfolding handed
  handed_lem own g i k = ground arith

  hand_callbacks_lem :
      (own : Callbacks Cb) (ks : List ℕ) (g : ℕ → Callbacks Cb) (i : ℕ)
      → hand_callbacks own ks g i ≡ (if is_set own.connect && is_in i ks then own else g i)
  unfolding hand_callbacks handed
  hand_callbacks_lem own [] g i = ground arith
  hand_callbacks_lem own (k ∷ ks) g i = ground (
    arith,
    handed_lem own g k i,
    hand_callbacks_lem own ks (if is_set own.connect then handed own g k else g) i,
  )

  -- setConnection gives every new stream both call-backs of the manager if the manager has a connect
  -- call-back, and changes none of its call-backs if it has none, also where the manager has a
  -- disconnect call-back; the other streams keep theirs, and those that were there before are closed.
  pub set_connection_lem :
      (streams : List ℕ) (m : Manager Cb) (i : ℕ)
      → let m' = set_connection streams m in
        (m'.streams i ≡ (if is_set m.own.connect && is_in i streams then m.own else m.streams i))
        × (m'.datas ≡ streams)
        × (m'.closed ≡ m.closed ++ m.datas)
  unfolding set_connection
  set_connection_lem streams m i =
      (ground (arith, hand_callbacks_lem m.own streams m.streams i), refl, refl)
