-- ===== src/P11/Db.antt =====
-- vtok_p11/src/backend/db/mod.rs: the objects of a token.
pub mod Load
pub mod Guarded
pub mod Contents
pub mod Secrets
use aws_nitro_enclaves_acm.Prelude.{
  ℕ, suc, Option, none, List, [], ◌∷◌, length, get_elem?, Bytes, if◌then◌else◌, leb,
}
use aws_nitro_enclaves_acm.P11.Object.{Object}

pub record Db : Type 0 where
  pub token_pin : Bytes
  pub objects : List Object

abbrev numbered : ℕ → List Object → List (ℕ × Object)
numbered i [] = []
numbered i (o ∷ os) = (i, o) ∷ numbered (suc i) os

-- Db::enumerate: a handle is a position.
unfoldable pub enumerate : Db → List (ℕ × Object)
enumerate db = numbered 0 db.objects

-- Db::object
unfoldable pub object : Db → ℕ → Option Object
object db handle = if leb (length db.objects) handle then none else get_elem? db.objects handle
