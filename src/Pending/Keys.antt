-- ===== src/Pending/Keys.antt =====
-- Which keys of two users are the same.
use linux.Base.{◌≡◌, refl, false, Bytes, eqb}
use linux.Pending.{payload_key, schedule_key, attempts_key}

pub payload_key-eqb : (a b : Bytes) → eqb (payload_key a) (payload_key b) ≡ eqb a b
unfolding eqb payload_key schedule_key attempts_key
payload_key-eqb a b = refl

pub schedule_key-eqb : (a b : Bytes) → eqb (schedule_key a) (schedule_key b) ≡ eqb a b
unfolding eqb payload_key schedule_key attempts_key
schedule_key-eqb a b = refl

pub attempts_key-eqb : (a b : Bytes) → eqb (attempts_key a) (attempts_key b) ≡ eqb a b
unfolding eqb payload_key schedule_key attempts_key
attempts_key-eqb a b = refl

pub payload_attempts : (a b : Bytes) → eqb (payload_key a) (attempts_key b) ≡ false
unfolding eqb payload_key schedule_key attempts_key
payload_attempts a b = refl

pub attempts_payload : (a b : Bytes) → eqb (attempts_key a) (payload_key b) ≡ false
unfolding eqb payload_key schedule_key attempts_key
attempts_payload a b = refl
