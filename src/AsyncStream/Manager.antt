-- ===== src/AsyncStream/Manager.antt =====
-- `AsyncSocketStreamManager`. A stream is an id; `connected` is what its `isConnected` says when it is
-- asked. `Cb` is a call-back of either kind; the streams' own are by id.
pub mod Get
pub mod Handed
mod Tests
use helens.Prelude.{
  ℕ, zero, suc, ◌+◌, ◌%◌, ◌^◌, Bool, true, false, ◌||◌, Option, none, some, List, [], ◌∷◌, ◌++◌,
  length, get_elem?, if◌then◌else◌,
}
use helens.Prelude.Family.{put}

pub record Callbacks (Cb : Type 0) : Type 0 where
  pub connect : Option Cb
  pub disconnect : Option Cb

pub record Manager (Cb : Type 0) : Type 0 where
  pub size : ℕ
  pub idx : ℕ
  pub datas : List ℕ
  pub own : Callbacks Cb
  pub streams : ℕ → Callbacks Cb
  pub closed : List ℕ  -- the streams that it has closed

module _ {Cb : Type 0} where
  abbrev pub set_connect_of : ℕ → Option Cb → (ℕ → Callbacks Cb) → ℕ → Callbacks Cb
  set_connect_of i cb g = put g i (record (g i) { connect = cb })

  abbrev pub set_disconnect_of : ℕ → Option Cb → (ℕ → Callbacks Cb) → ℕ → Callbacks Cb
  set_disconnect_of i cb g = put g i (record (g i) { disconnect = cb })

  abbrev pub is_set : Option Cb → Bool
  is_set none = false
  is_set (some _) = true

  unfoldable pub add : ℕ → Manager Cb → Manager Cb
  add i m =
      let g = m.streams in
      let g' = if is_set m.own.connect then set_connect_of i m.own.connect g else g in
      record m {
        datas = m.datas ++ i ∷ [];
        size = (m.size + 1) % 2 ^ 32;
        streams = if is_set m.own.disconnect then set_disconnect_of i m.own.disconnect g' else g';
      }

  unfoldable pub clear : Manager Cb → Manager Cb
  clear m = record m { closed = m.closed ++ m.datas; datas = []; size = 0 }

  -- Both tests of the loop are on m_connectCb.
  unfoldable pub hand_callbacks : Callbacks Cb → List ℕ → (ℕ → Callbacks Cb) → ℕ → Callbacks Cb
  hand_callbacks own [] g = g
  hand_callbacks own (i ∷ is) g = hand_callbacks own is (
      if is_set own.connect
      then set_disconnect_of i own.disconnect (set_connect_of i own.connect g)
      else g)

  unfoldable pub set_connection : List ℕ → Manager Cb → Manager Cb
  set_connection streams m =
      let handed = hand_callbacks m.own streams m.streams in
      record m {
        datas = streams;
        size = length streams % 2 ^ 32;
        streams = if is_set m.own.connect || is_set m.own.disconnect then handed else m.streams;
        closed = m.closed ++ m.datas;
      }

  unfoldable pub connect_all : Option Cb → List ℕ → (ℕ → Callbacks Cb) → ℕ → Callbacks Cb
  connect_all cb [] g = g
  connect_all cb (i ∷ is) g = connect_all cb is (set_connect_of i cb g)

  unfoldable pub disconnect_all : Option Cb → List ℕ → (ℕ → Callbacks Cb) → ℕ → Callbacks Cb
  disconnect_all cb [] g = g
  disconnect_all cb (i ∷ is) g = disconnect_all cb is (set_disconnect_of i cb g)

  unfoldable pub set_connect_cb : Option Cb → Manager Cb → Manager Cb
  set_connect_cb cb m = record m {
    own = record m.own { connect = cb };
    streams = connect_all cb m.datas m.streams;
  }

  unfoldable pub set_disconnect_cb : Option Cb → Manager Cb → Manager Cb
  set_disconnect_cb cb m = record m {
    own = record m.own { disconnect = cb };
    streams = disconnect_all cb m.datas m.streams;
  }

-- `addFetch(m_idx, 1)`, and the stream there, for the rounds that are left: the result and m_idx. A
-- place that is not in the vector, where the code is undefined, ends the loop.
unfoldable pub get_from : (ℕ → Bool) → List ℕ → ℕ → ℕ → ℕ → Option ℕ × ℕ
get_from connected datas size zero idx = (none, idx)
get_from connected datas size (suc rounds) idx =
    let idx' = (idx + 1) % 2 ^ 32 in
    let rest = get_from connected datas size rounds idx' in
    elim (get_elem? datas (idx' % size)) [
      | none ↦ (none, idx')
      | some i ↦ if connected i then (some i, idx') else rest
    ]

module _ {Cb : Type 0} where
  unfoldable pub get : (ℕ → Bool) → Manager Cb → Option ℕ × Manager Cb
  get connected m =
      let r = get_from connected m.datas m.size m.size m.idx in (r.0, record m { idx = r.1 })
