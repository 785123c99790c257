-- ===== src/Http2/Windows/Steps.antt =====
-- src/KHttp2.cpp: what every event keeps of a connection.
use khttpd.Http2.Windows.Actions.{widen-Keeps}
use khttpd.Http2.Windows.Adjust.{adjust_node-All}
use khttpd.Http2.Windows.Ready.{FreeStream, RightStream}
use khttpd.Http2.Windows.Checks.{
  any_lists, at_node-Moves, at_list-Moves, check_lists-Moves, At, Keeps,
}
use khttpd.Http2.Windows.Moves.{sent}
use khttpd.Http2.Windows.{max_window, Context, Wire, Connection}
use khttpd.Http2.Windows.Events.{
  destroyed, settings, widen, cleaned, adjust_node, writes, window_update, opened, Event,
  state_window_update, setting, adjust_windows, at_node, check_write_wait, at_stream,
}
use khttpd.Base.{
  ◌||◌, ◌-◌, ◌^◌, ltb, if◌then◌else◌, Bool-cases, inl, inr, ◌==◌, map, Option, Bool, ◌%◌, arith,
  sym, ◌/◌, subst, All, ◌+◌, ◌≤◌, ◌≡◌, ℕ, ◌<◌, refl, none, some, true, false,
}

-- The windows are in their range, and a writer that waits for a window waits for good reason: its
-- stream has none, or the connection has none.
pub record IsSound (c : Connection) : Type 0 where
  pub some_size : 0 < c.wire.frame_size
  pub window_le : c.wire.send_window ≤ max_window
  pub init_le : c.init_window ≤ max_window
  pub windows : All (All (At (RightStream c.init_window))) c.streams_index
  pub served : 0 < c.wire.send_window → All (All (At FreeStream)) c.streams_index

-- The bytes sent and those that the window still allows.
abbrev pub credit : Connection → ℕ
credit c = sent c.wire.pushed + c.wire.send_window

-- A connection after an event is sound, and its credit grew by what was granted.
pub record Steps (c d : Connection) (granted : ℕ) : Type 0 where
  pub sound : IsSound d
  pub credited : credit d ≡ credit c + granted

check_write_wait-Steps :
    (c : Connection)
    → 0 < c.wire.frame_size
    → c.wire.send_window ≤ max_window
    → c.init_window ≤ max_window
    → All (All (At (RightStream c.init_window))) c.streams_index
    → Steps c (check_write_wait c) 0
unfolding check_write_wait
check_write_wait-Steps c f w i h =
    let m = check_lists-Moves c.init_window c.wire c.streams_index f in
    record {
      sound = record {
        some_size = subst (λ k. 0 < k) (sym m.same_size) f;
        window_le = omega (arith, m.less);
        init_le = i;
        windows = m.right h;
        served = λ p. m.free p (any_lists c.streams_index);
      };
      credited = omega (arith, m.accounts);
    }

-- What an action does to one stream.
pub at_stream-Steps :
    (c : Connection) (act : Wire → ℕ → Context → Wire × Context) (sid : ℕ)
    → IsSound c
    → Keeps (RightStream c.init_window) (RightStream c.init_window) FreeStream FreeStream act
    → Steps c (at_stream act sid c) 0
unfolding at_stream
at_stream-Steps c act sid h k =
    let R = All (At (RightStream c.init_window)) in
    let m =
      at_list-Moves R (All (At FreeStream)) (at_node act sid) (sid / 2 % 16) c.wire c.streams_index
        (λ ns.
          at_node-Moves (RightStream c.init_window) FreeStream act k sid c.wire ns h.some_size) in
    record {
      sound = record {
        some_size = subst (λ k. 0 < k) (sym m.same_size) h.some_size;
        window_le = omega (arith, m.less, h.window_le);
        init_le = h.init_le;
        windows = m.right h.windows;
        served = λ p. m.free p (h.served (omega (arith, m.less)));
      };
      credited = omega (arith, m.accounts);
    }

-- An event that may close the connection.
abbrev pub StepsTo : Connection → Option Connection → ℕ → Type 0
StepsTo c none granted = Unit
StepsTo c (some d) granted = Steps c d granted

StepsTo-if :
    (c : Connection) (granted : ℕ) (b : Bool) (x y : Option Connection)
    → (b ≡ true → StepsTo c x granted)
    → (b ≡ false → StepsTo c y granted)
    → StepsTo c (if b then x else y) granted
StepsTo-if c granted true x y p q = p refl
StepsTo-if c granted false x y p q = q refl

pub Steps-same : (c : Connection) → IsSound c → Steps c c 0
Steps-same c h = record { sound = h; credited = omega arith }

adjust_windows-Steps :
    (value : ℕ) (c : Connection)
    → IsSound c
    → value ≤ max_window
    → Steps c (adjust_windows value c) 0
unfolding adjust_windows
adjust_windows-Steps value c h m =
    let s =
      check_write_wait-Steps
        (record c {
          init_window = value;
          streams_index = map (map (adjust_node c.init_window value)) c.streams_index;
        })
        h.some_size h.window_le m
        (adjust_node-All c.init_window value m c.streams_index h.windows) in
    record { sound = s.sound; credited = s.credited }

pub setting-Steps : (id value : ℕ) (c : Connection) → IsSound c → StepsTo c (setting id value c) 0
unfolding setting
setting-Steps id value c h =
    StepsTo-if c 0 (id == 4) (if ltb max_window value then none else some (adjust_windows value c))
      _
      (λ e.
        StepsTo-if c 0 (ltb max_window value) none (some (adjust_windows value c)) (λ a. tt)
          (λ a. adjust_windows-Steps value c h (ground arith)))
      (λ e.
        StepsTo-if c 0 (id == 5) _ (some c)
          (λ a.
            StepsTo-if c 0 (ltb (2 ^ 24 - 1) value || ltb value 16384) none _ (λ b. tt)
              (λ b. record {
                sound = record {
                  some_size = ground arith;
                  window_le = h.window_le;
                  init_le = h.init_le;
                  windows = h.windows;
                  served = h.served;
                };
                credited = omega arith;
              }))
          (λ a. Steps-same c h))

-- What an event grants the connection.
abbrev pub granted_by : Event → ℕ
granted_by (opened sid in_closed) = 0
granted_by (writes sid source n) = 0
granted_by (cleaned sid) = 0
granted_by (window_update sid window) = if sid == 0 then window else 0
granted_by (settings id value) = 0
granted_by (destroyed sid) = 0

connection_wider-Steps :
    (window : ℕ) (c : Connection)
    → IsSound c
    → let w = c.wire.send_window in
      let wider = record c { wire = record c.wire { send_window = w + window } } in
      StepsTo c
        (if ltb (max_window - w) window
          then none
          else (if w == 0 then some (check_write_wait wider) else some wider))
        window
connection_wider-Steps window c h =
    let w = c.wire.send_window in
    let wider = record c { wire = record c.wire { send_window = w + window } } in
    StepsTo-if c window (ltb (max_window - w) window) none
      (if w == 0 then some (check_write_wait wider) else some wider) (λ e. tt)
      (λ e.
        let le : w + window ≤ max_window = ground (arith, h.window_le) in
        StepsTo-if c window (w == 0) (some (check_write_wait wider)) (some wider)
          (λ a.
            let s = check_write_wait-Steps wider h.some_size le h.init_le h.windows in
            record { sound = s.sound; credited = omega (arith, s.credited) })
          (λ a. record {
            sound = record {
              some_size = h.some_size;
              window_le = le;
              init_le = h.init_le;
              windows = h.windows;
              served = λ p. h.served (ground arith);
            };
            credited = omega arith;
          }))

pub state_window_update-Steps :
    (sid window : ℕ) (c : Connection)
    → IsSound c
    → StepsTo c (state_window_update sid window c) (granted_by (window_update sid window))
unfolding state_window_update
state_window_update-Steps sid window c h = elim (Bool-cases (sid == 0)) [
  | inl e ↦ rw e (connection_wider-Steps window c h)
  | inr e ↦ rw e (at_stream-Steps c (widen window) sid h (widen-Keeps c.init_window window))
]
