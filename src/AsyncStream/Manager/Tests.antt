-- ===== src/AsyncStream/Manager/Tests.antt =====
-- A manager at concrete inputs. Call-backs are numbers.
use helens.Prelude.{
  ℕ, zero, suc, ◌+◌, ◌-◌, ◌^◌, ◌<◌, ◌≡◌, refl, Bool, false, none, some, [], ◌∷◌, ◌==◌, arith,
  get_elem?,
}
use helens.AsyncStream.Manager.{Callbacks, Manager, add, clear, get, get_from, set_connection}
use helens.AsyncStream.Manager.Get.{get_skips}
use helens.AsyncStream.Manager.Handed.{set_connection_lem}

abbrev no_callbacks : Callbacks ℕ
no_callbacks = record { connect = none; disconnect = none }

-- Three streams, of which `last` alone is connected.
abbrev three : ℕ → Manager ℕ
three idx = record {
  size = 3;
  idx = idx;
  datas = 11 ∷ 12 ∷ 13 ∷ [];
  own = record { connect = none; disconnect = some 8 };
  streams = λ _. no_callbacks;
  closed = [];
}

abbrev only_last : ℕ → Bool
only_last h = h == 13

get-three : (get only_last (three 0)).0 ≡ some 13
unfolding get get_from
get-three = refl

get_at_end : (get only_last (three (2 ^ 32 - 2))).0 ≡ none
unfolding get get_from
get_at_end = refl

add-clear : (clear (add 14 (three 0))).closed ≡ 11 ∷ 12 ∷ 13 ∷ 14 ∷ []
unfolding add clear
add-clear = refl

others_closed :
    (k h : ℕ) → k + 1 < 3 → get_elem? (11 ∷ 12 ∷ 13 ∷ []) k ≡ some h → only_last h ≡ false
others_closed zero h le e = ground arith
others_closed (suc zero) h le e = ground arith
others_closed (suc (suc k)) h le e = absurd (omega arith)

get_skips_example : (get only_last (three (2 ^ 32 - 2))).0 ≡ none
get_skips_example =
    get_skips only_last (three (2 ^ 32 - 2)) 13 (refl, omega arith) refl (omega arith) (omega arith)
      others_closed refl refl

set_connection_lem_example :
    ((set_connection (21 ∷ []) (three 0)).streams 21 ≡ no_callbacks)
    × ((set_connection (21 ∷ []) (three 0)).datas ≡ 21 ∷ [])
    × ((set_connection (21 ∷ []) (three 0)).closed ≡ 11 ∷ 12 ∷ 13 ∷ [])
set_connection_lem_example = set_connection_lem (21 ∷ []) (three 0) 21
