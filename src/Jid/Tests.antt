-- ===== src/Jid/Tests.antt =====
-- The theorems of addresses on the address of a client, prepared without libidn.
use gloox.Base.{◌≡◌, refl, true, Bytes, codes, inr, find_byte}
use gloox.Jid.Consistent.{IsConsistent, setters-IsConsistent, set_jid-IsConsistent}
use gloox.Jid.Escape.{
  escape_node, unescape_node, piece_of, node_escapes, escape_node-spread, unescape_node-escape_node,
}
use gloox.Util.Replace.{spread}
use gloox.Jid.Parts.{IsAddress, new_jid, address, set_jid_lem}
use gloox.Jid.{
  empty_jid, without_libidn, full_of, bare_of, set_jid, set_username, set_server, set_resource,
}

abbrev user : Bytes
user = codes "me"

abbrev host : Bytes
host = codes "a.b"

abbrev client : Bytes
client = codes "x@y"

client_ok : IsAddress without_libidn user host client
client_ok = record {
  username_ok = inr (refl, (refl, (refl, Prim.tt)), refl);
  server_filled = refl;
  server_apart = (refl, (refl, (refl, Prim.tt)));
  server_ok = refl;
  resource_ok = inr (refl, refl);
}

set_jid_lem_example :
    set_jid without_libidn (full_of (bare_of user host) client) new_jid
    ≡ (address user host client, true)
set_jid_lem_example = set_jid_lem without_libidn user host client client_ok

setters-IsConsistent_example :
    IsConsistent (set_username without_libidn user empty_jid)
    × IsConsistent (set_server without_libidn user empty_jid)
    × IsConsistent (set_resource without_libidn user empty_jid)
setters-IsConsistent_example =
    setters-IsConsistent without_libidn empty_jid user (record { bare_ok = refl; full_ok = refl })

accepted : (set_jid without_libidn (codes "me@a.b/x") new_jid).1 ≡ true
unfolding set_jid find_byte
accepted = refl

set_jid-IsConsistent_example : IsConsistent (set_jid without_libidn (codes "me@a.b/x") new_jid).0
set_jid-IsConsistent_example =
    set_jid-IsConsistent without_libidn (codes "me@a.b/x") new_jid accepted

unescape_node-escape_node_example :
    unescape_node (escape_node (codes "d'\\20@ x\\")) ≡ codes "d'\\20@ x\\"
unescape_node-escape_node_example = unescape_node-escape_node (codes "d'\\20@ x\\")

escape_node-spread_example :
    escape_node (codes "\\20 ") ≡ spread (piece_of node_escapes) (codes "\\20 ")
escape_node-spread_example = escape_node-spread (codes "\\20 ")
