-- ===== src/Api.antt =====
-- near/api.go: the calls of the node.
use Prim.Native.Nat.{◌+◌}
use near_adapter.Prelude.{
  ℕ, zero, suc, ◌/◌, ◌%◌, true, false, not, [], ◌∷◌, ◌++◌, Text, codes, Option, none, some, ◌==◌,
  if◌then◌else◌,
}
use near_adapter.Prelude.Int.{ℤ, pos, negsuc}
use near_adapter.Go.{GoError, plain}
use near_adapter.Exec.{Exec, pure, raise, ◌>>=◌}
use near_adapter.Platform.{Platform, Params}
use near_adapter.Config.{Client}

-- The decimal digits of a number in front of `rest`, on fuel. A number is fuel enough.
unfoldable pub decimal_digits : ℕ → ℕ → Text → Text
decimal_digits zero n rest = rest
decimal_digits (suc fuel) n rest = elim (n == 0) [
  | true ↦ rest
  | false ↦ decimal_digits fuel (n / 10) ((b'0' + n % 10) ∷ rest)
]

-- `%d`
unfoldable pub format_int : ℤ → Text
unfolding decimal_digits
format_int (pos zero) = codes "0"
format_int (pos (suc n)) = decimal_digits (suc n) (suc n) []
format_int (negsuc n) = b'-' ∷ decimal_digits (suc n) (suc n) []

module _ (p : Platform) where
  unfoldable pub is_error : p.Reply → Option GoError
  is_error result =
      if not (p.is_object (p.get_path result (codes "error")))
      then (if not (p.exists (p.get_path result (codes "result")))
          then some (plain (codes "Response is empty! "))
          else none)
      else some (
          plain (
            codes "["
            ++ (format_int (p.to_int (p.get_path result (codes "error.code")))
                ++ (codes "]" ++ p.to_string (p.get_path result (codes "error.message"))))))

  -- The text behind an error from `is_error`, or the part `result` of the reply.
  unfoldable pub checked_reply : p.Reply → Option GoError → Exec p.World p.Reply
  checked_reply resp none = pure (p.get_path resp (codes "result"))
  checked_reply resp (some e) = raise e

  unfoldable pub get : Client → Text → Exec p.World p.Reply
  get c path = do bytes ← p.req_get (c.base_url ++ path); pure (p.parse_bytes bytes)

  -- `Call` and `Call2`, which differ in the type of `params` alone.
  unfoldable pub call : Client → Text → Params → Exec p.World p.Reply
  unfolding checked_reply
  call c method params = do
    bytes ←
        p.req_post c.base_url
          (record { jsonrpc = codes "2.0"; id = 1; method = method; params = params })
    checked_reply (p.parse_bytes bytes) (is_error (p.parse_bytes bytes))
