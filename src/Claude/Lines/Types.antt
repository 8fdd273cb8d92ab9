-- ===== src/Claude/Lines/Types.antt =====
-- src-tauri/src/agent/claude_protocol.rs: a line is of one type only.
use open_covibe_web.Common.{
  inl, inr, Bool-cases, ◌||◌, eq_iff, if◌then◌else◌, refl, arith, str_eq, String, Bool, true, false,
  Option, List, ◌≡◌,
}
use open_covibe_web.Models.{BusEvent}
use open_covibe_web.Models.Json.{Json}
use open_covibe_web.Claude.{Outside, map_typed, fallback}
use open_covibe_web.Claude.State.{ProtocolState}
use open_covibe_web.Claude.System.{map_system}
use open_covibe_web.Claude.Stream.{map_block_start}
use open_covibe_web.Claude.Messages.{map_assistant}
use open_covibe_web.Claude.Result.{map_result}
use open_covibe_web.Claude.Lines.Quiet.{Quiet, Quiet-of, map_block_delta-Quiet, map_user-Quiet}

if-P :
    (P : ProtocolState × List BusEvent → Type 0) (c : Bool) (a b : ProtocolState × List BusEvent)
    → (c ≡ true → P a)
    → (c ≡ false → P b)
    → P (if c then a else b)
if-P P true a b f g = f refl
if-P P false a b f g = g refl

is_named : (s t : String) → str_eq s t ≡ true → s ≡ t
is_named s t e = ground (arith, eq_iff s t)

-- The types of lines, one after the other.
pub map_typed-cases :
    (P : ProtocolState × List BusEvent → Type 0) (o : Outside) (p : ProtocolState)
    (parent : Option String) (t : String) (line : Json)
    → (t ≡ "system" → P (map_system p line))
    → (t ≡ "content_block_start" → P (map_block_start p parent line))
    → (t ≡ "assistant" → P (map_assistant o.fresh_id p parent line))
    → (t ≡ "result" → P (map_result o.dollars p line))
    → (str_eq t "system" ≡ false
        → str_eq t "result" ≡ false
        → (out : ProtocolState × List BusEvent) → Quiet p out
        → P out)
    → (str_eq t "system" ≡ false → str_eq t "result" ≡ false → P (fallback p t line))
    → P (map_typed o p parent t line)
map_typed-cases P o p parent t line system start assistant result quiet other =
    if-P P (str_eq t "system") _ _ (λ e. system (is_named t "system" e))
      (λ s.
        if-P P (str_eq t "content_block_start") _ _
          (λ e. start (is_named t "content_block_start" e))
          (λ e.
            if-P P (str_eq t "content_block_delta") _ _
              (λ e.
                quiet s (rest "content_block_delta" e refl) _ (map_block_delta-Quiet p parent line))
              (λ e.
                if-P P (str_eq t "content_block_stop" || str_eq t "message_stop") _ _
                  (λ e. quiet s (stop e) _ (Quiet-of p _ (ground arith)))
                  (λ e.
                    if-P P (str_eq t "assistant") _ _ (λ e. assistant (is_named t "assistant" e))
                      (λ e.
                        if-P P (str_eq t "user") _ _
                          (λ e. quiet s (rest "user" e refl) _ (map_user-Quiet p parent line))
                          (λ e.
                            if-P P (str_eq t "result") _ _ (λ e. result (is_named t "result" e))
                              (λ n.
                                if-P P (str_eq t "tool_progress") _ _
                                  (λ e. quiet s n _ (Quiet-of p _ (ground arith)))
                                  (λ e.
                                    if-P P (str_eq t "tool_use_summary") _ _
                                      (λ e. quiet s n _ (Quiet-of p _ (ground arith)))
                                      (λ e.
                                        if-P P (str_eq t "rate_limit_event") _ _
                                          (λ e. quiet s n _ (Quiet-of p _ (ground arith)))
                                          (λ e. other s n))))))))))
  where
    rest : (s : String) → str_eq t s ≡ true → str_eq s "result" ≡ false → str_eq t "result" ≡ false
    rest s e k = rw (is_named t s e) k

    stop :
        str_eq t "content_block_stop" || str_eq t "message_stop" ≡ true → str_eq t "result" ≡ false
    stop e = elim (Bool-cases (str_eq t "content_block_stop")) [
      | inl h ↦ rest "content_block_stop" h refl
      | inr h ↦ rest "message_stop" (ground (arith, e, h)) refl
    ]
