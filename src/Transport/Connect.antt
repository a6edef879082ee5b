-- ===== src/Transport/Connect.antt =====
-- stnet/connector.go: how a connector tries again.
use gotools.Common.{
  ℕ, ◌+◌, ◌*◌, List, [], ◌∷◌, ◌++◌, ltb, ◌==◌, Bool, true, false, ◌||◌, if◌then◌else◌,
}

-- The connector: the count of its tries since it was connected, and the waits before them, in
-- milliseconds.
pub record Connector : Type 0 where
  pub reconn_count : ℕ
  pub reconnect_msec : ℕ
  pub delays : List ℕ
  pub closed : Bool
  pub over : Bool

-- How a round of `connect` goes: it is closed in the wait; Dial fails; it is closed while it dials;
-- or it connects, and the session is closed later. The Bool is whether it is closed at the round's
-- last test.
pub data Round : Type 0 where
  closed_in_wait closed_in_dial : Round
  refused connected : Bool → Round

abbrev pub new_connector : Connector
new_connector = record {
  reconn_count = 0;
  reconnect_msec = 100;
  delays = [];
  closed = false;
  over = false;
}

abbrev pub waited : Connector → List ℕ
waited c =
    if ltb 0 c.reconn_count
    then c.delays ++ c.reconn_count * c.reconn_count * c.reconnect_msec ∷ []
    else c.delays

unfoldable pub next_count : ℕ → ℕ
next_count n = if ltb 30 (n + 1) then 10 else n + 1

-- A round; the wait is the one that is asked of the timer, which a signal may cut short.
unfoldable pub try_once : Round → Connector → Connector
unfolding next_count
try_once closed_in_wait c =
    if ltb 0 c.reconn_count then record c { delays = waited c; closed = true; over = true } else c
try_once closed_in_dial c = record c {
  reconn_count = next_count c.reconn_count;
  delays = waited c;
  closed = true;
  over = true;
}
try_once (refused close) c = record c {
  reconn_count = next_count c.reconn_count;
  delays = waited c;
  closed = close;
  over = close || c.reconnect_msec == 0;
}
try_once (connected close) c = record c {
  reconn_count = 0;
  delays = waited c;
  closed = close;
  over = close || c.reconnect_msec == 0;
}

-- The loop of `connect`.
unfoldable pub connect : List Round → Connector → Connector
unfolding try_once
connect [] c = c
connect (r ∷ rs) c =
    let next = connect rs (try_once r c) in
    if c.over then c else if c.closed then record c { over = true } else next
