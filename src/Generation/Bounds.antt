-- ===== src/Generation/Bounds.antt =====
-- How long the texts of an ended call are, in bytes.
use chatgpt_codex_proxy.Base.{ℕ, ◌≤◌, if_keeps, ltb, length, length-append, arith}
use chatgpt_codex_proxy.Base.Bytes.{Bytes, take, trim, length-take}
use chatgpt_codex_proxy.Generation.{
  GenerationRecord, GenerationInput, safe_code, ellipsis, truncate, ended,
}

safe_code-short : (v : Bytes) → length (safe_code v) ≤ 200
unfolding safe_code
safe_code-short v =
    if_keeps (λ (t : Bytes). length t ≤ 200) (ltb 200 (length (trim v)))
      (λ _. length-take 200 (trim v)) (λ h. ground (arith, h))

truncate-short : (v : Bytes) → length (truncate v) ≤ 2051
unfolding truncate
truncate-short v =
    if_keeps (λ (t : Bytes). length t ≤ 2051) (ltb 2048 (length (trim v)))
      (λ _. omega (arith, length-append (take 2048 (trim v)) ellipsis, length-take 2048 (trim v)))
      (λ h. ground (arith, h))

-- The texts that Finish writes: the code in 200 bytes, each other in 2048 and the ellipsis.
pub record IsShort (r : GenerationRecord) : Type 0 where
  pub code : length r.error_code ≤ 200
  pub message : length r.error_message ≤ 2051
  pub response : length r.response_id ≤ 2051
  pub model_of_response : length r.response_model ≤ 2051
  pub terminal_name : length r.terminal_event ≤ 2051

-- The error code that Finish writes has at most 200 bytes, and the message, the response id, its
-- model and the terminal event at most 2048 and the three of the ellipsis.
pub ended-IsShort :
    (now : ℕ) (input : GenerationInput) (r : GenerationRecord) → IsShort (ended now input r)
unfolding ended
ended-IsShort now input r = record {
  code = safe_code-short input.error_code;
  message = truncate-short input.error_message;
  response = truncate-short input.response_id;
  model_of_response = truncate-short input.response_model;
  terminal_name = truncate-short input.terminal_event;
}
