-- ===== src/Claude/Lines/Quiet.antt =====
-- src-tauri/src/agent/claude_protocol.rs: the lines that neither change the state of the run nor start
-- a call.
use open_covibe_web.Common.{
  none, ℕ, ◌+◌, String, Bool, true, Option, some, List, [], ◌∷◌, ◌++◌, ◌≡◌, refl, arith, lookup,
  eq_refl, ◌||◌, eq_iff,
}
use open_covibe_web.Models.{BusEvent}
use open_covibe_web.Models.Json.{Json, get, get_array, get_str, text_or}
use open_covibe_web.Claude.State.{ProtocolState}
use open_covibe_web.Claude.System.{system_events, local_output}
use open_covibe_web.Claude.Stream.{map_block_delta}
use open_covibe_web.Claude.Messages.{map_user, results_of, message_of, user_content}
use open_covibe_web.Claude.Result.{usage_part, denials}
use open_covibe_web.Claude.Lines.{tally, misnames, is_end, says, is_raw, starts, is_loud}

pub tally-append :
    (f : BusEvent → Bool) (es gs : List BusEvent) → tally f (es ++ gs) ≡ tally f es + tally f gs
tally-append f [] gs = omega arith
tally-append f (e ∷ es) gs = omega (arith, tally-append f es gs)

tally-within :
    (f g : BusEvent → Bool) (es : List BusEvent)
    → ((e : BusEvent) → f e ≡ true → g e ≡ true)
    → tally g es ≡ 0
    → tally f es ≡ 0
tally-within f g [] h z = refl
tally-within f g (e ∷ es) h z = ground (arith, h e, tally-within f g es h)

says-is_loud : (s : String) (e : BusEvent) → says s e ≡ true → is_loud e ≡ true
says-is_loud s e h = ground arith

is_raw-is_loud : (e : BusEvent) → is_raw e ≡ true → is_loud e ≡ true
is_raw-is_loud e h = ground arith

starts-is_loud : (id : String) (e : BusEvent) → starts id e ≡ true → is_loud e ≡ true
starts-is_loud id e h = ground arith

abbrev is_marked : BusEvent → Bool
is_marked e = is_loud e || is_end e

-- Events that are not loud.
pub record Soft (evs : List BusEvent) : Type 0 where
  pub says : (s : String) → tally (says s) evs ≡ 0
  pub raws : tally is_raw evs ≡ 0
  pub starts : (id : String) → tally (starts id) evs ≡ 0

Soft-of : (evs : List BusEvent) → tally is_loud evs ≡ 0 → Soft evs
Soft-of evs z = record {
  says = λ s. tally-within (says s) is_loud evs (says-is_loud s) z;
  raws = tally-within is_raw is_loud evs is_raw-is_loud z;
  starts = λ id. tally-within (starts id) is_loud evs (starts-is_loud id) z;
}

-- What a line without a part in the ledger leaves as it was.
pub record Quiet (p : ProtocolState) (out : ProtocolState × List BusEvent) : Type 0 where
  pub soft : Soft (out.1)
  pub seen : (out.0).seen_first_init ≡ p.seen_first_init
  pub resume : (out.0).is_resume ≡ p.is_resume
  pub unknown : (out.0).stats.unknown_event_count ≡ p.stats.unknown_event_count
  pub calls : (out.0).emitted_tool_ids ≡ p.emitted_tool_ids
  pub named :
      (id name : String)
      → lookup id p.emitted_tool_ids ≡ some name
      → tally (misnames id name) (out.1) ≡ 0

-- The same, with the events by the test.
pub record Silent (p : ProtocolState) (out : ProtocolState × List BusEvent) : Type 0 where
  pub soft : tally is_marked (out.1) ≡ 0
  pub seen : (out.0).seen_first_init ≡ p.seen_first_init
  pub resume : (out.0).is_resume ≡ p.is_resume
  pub unknown : (out.0).stats.unknown_event_count ≡ p.stats.unknown_event_count
  pub calls : (out.0).emitted_tool_ids ≡ p.emitted_tool_ids

pub Quiet-of :
    (p : ProtocolState) (out : ProtocolState × List BusEvent) → Silent p out → Quiet p out
Quiet-of p out s = record {
  soft = Soft-of (out.1) (tally-within is_loud is_marked (out.1) (λ e h. ground arith) s.soft);
  seen = s.seen;
  resume = s.resume;
  unknown = s.unknown;
  calls = s.calls;
  named =
      λ id name k. tally-within (misnames id name) is_marked (out.1) (λ e h. ground arith) s.soft;
}

system_events-silent :
    (t : String) (line : Json) (evs : List BusEvent)
    → system_events t line ≡ some evs
    → tally is_marked evs ≡ 0
unfolding system_events
system_events-silent t line evs e = ground arith

pub system_events-Quiet :
    (p : ProtocolState) (t : String) (line : Json) (evs : List BusEvent)
    → system_events t line ≡ some evs
    → Quiet p (p, evs)
system_events-Quiet p t line evs e =
    let z = system_events-silent t line evs e in Quiet-of p _ (ground arith)

pub local_output-Quiet : (p : ProtocolState) (line : Json) → Quiet p (local_output p line)
local_output-Quiet p line = Quiet-of p _ (ground arith)

pub map_block_delta-Quiet :
    (p : ProtocolState) (parent : Option String) (line : Json)
    → Quiet p (map_block_delta p parent line)
unfolding map_block_delta
map_block_delta-Quiet p parent line = Quiet-of p _ (ground arith)

results_of-silent :
    (p : ProtocolState) (parent : Option String) (result : Option Json) (blocks : List Json)
    → tally is_loud (results_of p parent result blocks) ≡ 0
results_of-silent p parent result [] = refl
results_of-silent p parent result (b ∷ bs) = ground (arith, results_of-silent p parent result bs)

results_of-named :
    (p : ProtocolState) (parent : Option String) (result : Option Json) (blocks : List Json)
    (id name : String)
    → lookup id p.emitted_tool_ids ≡ some name
    → tally (misnames id name) (results_of p parent result blocks) ≡ 0
results_of-named p parent result [] id name e = refl
results_of-named p parent result (b ∷ bs) id name e = ground (
  arith,
  results_of-named p parent result bs id name e,
  eq_iff (text_or "" "tool_use_id" b) id,
  eq_refl name,
)

user_content-Quiet :
    (p : ProtocolState) (parent : Option String) (line : Json) (o : Option String)
    → Quiet p (user_content p parent line o)
user_content-Quiet p parent line none =
    let result = get "tool_use_result" line in
    let blocks = get_array "content" (message_of line) in
    record {
      soft = Soft-of _ (results_of-silent p parent result blocks);
      seen = refl;
      resume = refl;
      unknown = refl;
      calls = refl;
      named = results_of-named p parent result blocks;
    }
user_content-Quiet p parent line (some text) = Quiet-of p _ (ground arith)

pub map_user-Quiet :
    (p : ProtocolState) (parent : Option String) (line : Json) → Quiet p (map_user p parent line)
unfolding map_user
map_user-Quiet p parent line =
    user_content-Quiet p parent line (get_str "content" (message_of line))

pub usage_part-Quiet :
    (dollars : ℕ → Json) (p : ProtocolState) (line : Json) (usage : Option Json)
    → Quiet p (usage_part dollars p line usage)
usage_part-Quiet dollars p line usage = Quiet-of p _ (ground arith)

denials-silent : (ds : List Json) → tally is_marked (denials ds) ≡ 0
denials-silent [] = refl
denials-silent (d ∷ ds) = ground (arith, denials-silent ds)

pub denials-Quiet : (p : ProtocolState) (ds : List Json) → Quiet p (p, denials ds)
denials-Quiet p ds = let z = denials-silent ds in Quiet-of p _ (ground arith)
