-- ===== src/Celld/Destroying.antt =====
-- The token of a cell that `Celld.destroy_cell` has destroyed.
use nadi.Common.{suc, ◌/◌, ◌≡◌, ap, ◌∙◌, String, true, false, not, ◌⊎◌, some, ℕ}
use nadi.Strings.{words}
use nadi.Common.Int.{ℤ, pos, ◌≤ℤ◌, ltb_ℤ, second, seconds}
use nadi.Json.{Fields, str, obj, get, get_or, is_truthy}
use nadi.Exec.{ok, err, jwt, token_revoked}
use nadi.Sql.{exists_where}
use nadi.Store.Schema.{Store}
use nadi.Store.Sessions.{update_session_status}
use nadi.Store.Tokens.{has_jti, revoke_token, is_token_revoked}
use nadi.Store.Tokens.Revocation.{is_token_revoked-revoke_token}
use nadi.Security.Base64.RoundTrip.{b64d-b64e}
use nadi.Security.Jwt.{claims, contains, verify}
use nadi.Security.Jwt.Signed.{signed, IsCodec, split_signed}
use nadi.Security.Jwt.SignVerify.{verify-signed_revoked}
use nadi.World.{World, Config, Cell, on_store}
use nadi.Celld.{token_claims, revocation_of, cell_of, revoke_cell_token, destroy_cell}

module _ {Text : Type 0} (c : Config Text) (host_id : String) where
  token_claims-signed :
      (d : Fields)
      → IsCodec c.env c.crypto c.secret d
      → token_claims c.crypto (signed c.env c.crypto c.secret d) ≡ some (obj d)
  token_claims-signed d codec = rw (
    token_claims,
    split_signed c.env c.crypto c.secret d codec,
    b64d-b64e (c.crypto.dumps d) codec.bytes,
    codec.back,
  )

  module _ (subject session_id scope : String) (exp : ℤ) (jti : String) where
    abbrev cl : Fields
    cl = claims subject session_id scope exp jti

    revocation_of-claims :
        is_truthy (str jti) ≡ true → revocation_of c.env.repr (obj cl) ≡ some (jti, exp)
    unfolding get get_or
    revocation_of-claims named = rw named

    revoke_cell_token-signed :
        (w : World Text)
        → IsCodec c.env c.crypto c.secret cl
        → is_truthy (str jti) ≡ true
        → revoke_cell_token c host_id (signed c.env c.crypto c.secret cl) w
          ≡ on_store (revoke_token c.env jti (seconds exp)) w
    unfolding revoke_cell_token
    revoke_cell_token-signed w codec named =
        rw (revoke_cell_token, token_claims-signed cl codec, revocation_of-claims named)

    -- What is left of the store when a cell with such a token has been destroyed.
    abbrev stopped : Store Text → Store Text
    stopped s =
        (update_session_status c.env session_id "stopped"
          (revoke_token c.env jti (seconds exp) s).1).1

    destroy_cell_held :
        (cell : Cell) (w : World Text)
        → IsCodec c.env c.crypto c.secret cl
        → is_truthy (str jti) ≡ true
        → cell_of c host_id session_id w ≡ some cell
        → cell.jwt ≡ signed c.env c.crypto c.secret cl
        → (destroy_cell c host_id session_id w).1.store ≡ stopped w.store
    unfolding destroy_cell revoke_token
    destroy_cell_held cell w codec named held token =
        rw (held, token, revoke_cell_token-signed _ codec named)

    is_token_revoked-stopped :
        (s : Store Text) (n : ℕ)
        → exists_where (has_jti jti) s.revoked_tokens ≡ false
        → (is_token_revoked c.env jti (record (stopped s) { clock_reads = n })).0
          ≡ ok (not (ltb_ℤ (seconds exp) (pos (c.env.time n))))
    unfolding update_session_status is_token_revoked
    is_token_revoked-stopped s n new = is_token_revoked-revoke_token c.env jti (seconds exp) n s new

    -- `destroy_cell` revokes the token of the cell that it removes: a token with such claims, which was
    -- not revoked before, is refused as revoked when `verify` reads it next, for each scope that it
    -- grants, as long as the clock has not passed its expiry.
    pub verify-destroy_cell :
        (wanted : String) (cell : Cell) (w : World Text)
        → IsCodec c.env c.crypto c.secret cl
        → is_truthy (str jti) ≡ true
        → cell_of c host_id session_id w ≡ some cell
        → cell.jwt ≡ signed c.env c.crypto c.secret cl
        → exists_where (has_jti jti) w.store.revoked_tokens ≡ false
        → let s = (destroy_cell c host_id session_id w).1.store in
          pos (c.env.time s.clock_reads / second) ≤ℤ exp
          → ltb_ℤ (seconds exp) (pos (c.env.time (suc s.clock_reads))) ≡ false
          → (contains wanted (words scope) ≡ true) ⊎ (scope ≡ "*")
          → (verify c.env c.crypto c.secret cell.jwt session_id wanted true s).0
            ≡ err (jwt token_revoked)
    verify-destroy_cell wanted cell w codec named held token new alive early granted =
        let s = (destroy_cell c host_id session_id w).1.store in
        let same : s ≡ stopped w.store = destroy_cell_held cell w codec named held token in
        let revoked : (is_token_revoked c.env jti (record s { clock_reads = suc s.clock_reads })).0
            ≡ ok true =
          rw same (
            is_token_revoked-stopped w.store (suc (stopped w.store).clock_reads) new
            ∙ ap (λ b. ok (not b)) (rw same at early)) in
        rw token (
          verify-signed_revoked c.env c.crypto c.secret subject session_id scope exp jti wanted s
            true codec alive granted named revoked)
