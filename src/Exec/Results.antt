-- ===== src/Exec/Results.antt =====
-- A result is a value or an error, and which of the two.
use sociomile.Prelude.{◌≡◌, ◌≢◌}
use sociomile.Apperror.{Error}
use sociomile.Exec.{ok, err}

pub ok≢err : {A : Type 0} (a : A) (e : Error) → ok a ≢ err e
ok≢err a e h = cc

pub ok_injective : {A : Type 0} (a b : A) → ok a ≡ ok b → a ≡ b
ok_injective a b h = cc
