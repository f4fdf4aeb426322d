-- ===== src/Ftp/Server/Table.antt =====
-- The table funcs of lab1/ftp_server.cpp: which types of a message have a handler.
use computer_system24fall.Common.{
  ℕ, zero, suc, ◌+◌, ◌-◌, ◌*◌, ◌/◌, ◌≤◌, ◌<◌, ◌≡◌, refl, ap, Bool, true, false, Option, none, some,
  arith, ltb, if◌then◌else◌, get_elem?,
}
use computer_system24fall.Common.Int.{pos, neg}
use computer_system24fall.Ftp.Files.{Os}
use computer_system24fall.Ftp.Server.{do_open, do_ls, do_cd, do_get, do_put, do_sha, do_quit}
use computer_system24fall.Ftp.Server.Main.{
  type2ind, Handler, funcs, handler_at, call_handler, dispatch,
}

module _ {Disk : Type 0} (os : Os Disk) where
  -- The handler of each type, in pairs from 0xA0 on: a request stands with the type below it, which is
  -- rounded to the same index for 0xA0 and is the reply before it for the others.
  abbrev pub handler_of : ℕ → Option (Handler os)
  handler_of t =
      if ltb t 0xA0
      then none
      else if ltb t 0xA3
      then some do_open
      else if ltb t 0xA5
      then some (do_ls os)
      else if ltb t 0xA7
      then some (do_cd os)
      else if ltb t 0xA9
      then some (do_get os)
      else if ltb t 0xAB
      then some (do_put os)
      else if ltb t 0xAD
      then some (do_sha os)
      else if ltb t 0xAF
      then some do_quit
      else none

  by_index : (i t : ℕ) → i * 2 + 161 ≤ t → t ≤ i * 2 + 162 → get_elem? (funcs os) i ≡ handler_of t
  by_index zero t h h' = ground (arith, h, h')
  by_index (suc zero) t h h' = ground (arith, h, h')
  by_index (suc (suc zero)) t h h' = ground (arith, h, h')
  by_index (suc (suc (suc zero))) t h h' = ground (arith, h, h')
  by_index (suc (suc (suc (suc zero)))) t h h' = ground (arith, h, h')
  by_index (suc (suc (suc (suc (suc zero))))) t h h' = ground (arith, h, h')
  by_index (suc (suc (suc (suc (suc (suc zero)))))) t h h' = ground (arith, h, h')
  by_index (suc (suc (suc (suc (suc (suc (suc i))))))) t h h' = ground (arith, h, h')

  below : (k t : ℕ) → k ≡ (161 - t) / 2 → t < 161 → handler_at os (neg k) ≡ handler_of t
  below zero t e h = ground (arith, e, h)
  below (suc k) t e h = ground (arith, e, h)

  handler_at-type2ind : (t : ℕ) → handler_at os (type2ind t) ≡ handler_of t
  unfolding type2ind
  handler_at-type2ind t = by_side (ltb t 161) refl
    where
      by_side :
          (b : Bool)
          → ltb t 161 ≡ b
          → handler_at os (if b then neg ((161 - t) / 2) else pos ((t - 161) / 2)) ≡ handler_of t
      by_side true e = below ((161 - t) / 2) t refl (ground (arith, e))
      by_side false e = by_index ((t - 161) / 2) t (ground (arith, e)) (ground (arith, e))

  -- The handler that a message's type selects: types 0xA0 to 0xAE select the seven handlers, two or three
  -- types each, whether requests or replies; any other type reads the table out of its range.
  pub dispatch-handler_of : (t : ℕ) → dispatch os t ≡ call_handler os (handler_of t)
  unfolding dispatch
  dispatch-handler_of t = ap (call_handler os) (handler_at-type2ind t)
