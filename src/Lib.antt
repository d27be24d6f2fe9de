-- ===== src/Lib.antt =====
-- gloox, an XMPP library in C++: the path from the bytes of a connection to tags and back.
--
-- A connection hands what it has received to `Parser::feed` (src/parser.cpp), piece by piece as it
-- arrives. The parser is a state machine over single bytes; it builds `Tag` objects (src/tag.cpp) and
-- gives each finished stanza to its handler. What is sent is built as tags and printed by `Tag::xml`,
-- which escapes texts and values by `util::appendEscaped` (src/util.cpp); the setters of `Tag` refuse
-- texts by `util::checkValidXMLChars`.
--
-- Beside this path stand parts that work on it: connections through a SOCKS5 or an HTTP
-- proxy, bytes sent in stanzas, the roster, privacy lists, message filters, the dispatcher of events,
-- capabilities, and the digest SHA-1.
--
-- Base: names of the libraries passed on, Boolean tests on numbers (Base/Tests), lists with lengths
--   in the native numbers (Base/Lists), signed integers
--   (Base/Int), and `std::string` as the list of its bytes (Base/Text).
-- Util: `escape` and `appendEscaped` (Util/Escape), `replaceAll` (Util/Replace),
--   `checkValidXMLChars` (Util/Valid),
--   `internalLog2`, `_lookup` and `_lookup2` (Util/Lookup), `long2string` of src/util.h (Util/Numbers).
-- StringMap: `StringMap` of src/gloox.h as a sorted list; `find` and `insert` are its lookup and its
--   `operator[]` with an assignment. Map is `std::map` with other values.
-- Tag: the data of src/tag.h and the constructors; Tag/Attributes has the operations on attributes
--   and namespaces, Tag/Children those on child tags and character data, Tag/Equality `operator==`,
--   Tag/Printer `xml`. A tag does not hold its parent: an operation that looks upwards takes the
--   heads of the tags above. `m_children` and `m_cdata` are read off `m_nodes`.
-- Parser: the members of class `Parser`, `cleanup`, `isWhitespace` and `streamEvent`; Parser/Decode has
--   `decode`, Parser/Build has `addTag`, `addAttribute`, `addCData` and `closeTag`, Parser/Step has one function
--   for each case of the switch in `feed`, and Parser/Feed the loop. `feed` returns `none` for -1.
--   `m_root` and `m_current` are one list of the open tags, the innermost first.
--   Parser/Pieces is a connection that feeds piece after piece until one is refused.
-- Jid: class `JID` (src/jid.cpp) over preparation functions; `Prep` holds those of src/prep.cpp, which
--   `with_libidn` and `without_libidn` make. A profile of libidn is a parameter: a function from a text
--   to the prepared text, or a refusal.
--   Jid/Escape has `escapeNode` and `unescapeNode`.
-- EventDispatcher: class `EventDispatcher` (src/eventdispatcher.cpp), its multimap as a sorted list.
-- InBandBytestream: class `InBandBytestream` (src/inbandbytestream.cpp); an operation returns the stream
--   and its effects in order. The loop of `send` runs on fuel, one more than the text has bytes.
-- Connection: the states and errors of connections (src/gloox.h), and what the proxies use of the C library.
-- Socks5Proxy: class `ConnectionSOCKS5Proxy` (src/connectionsocks5proxy.cpp), its handshake in
--   Socks5Proxy/Negotiation. Socks5Proxy/Server is the other end, as RFC 1928 and RFC 1929 describe it.
-- HttpProxy: class `ConnectionHTTPProxy` (src/connectionhttpproxy.cpp), with the same calls; `none` is an
--   exception of `compare`.
-- Sha: class `SHA` (src/sha.cpp). Sha/Reference is the digest of a whole message,
--   Sha/Fips the compression of a block as FIPS 180-1 describes it.
-- Roster: contacts and resources (src/rosteritem.cpp and its headers); Roster/Manager is class
--   `RosterManager` (src/rostermanager.cpp), with the calls of its listener and its client as a list.
-- Privacy: `PrivacyItem` and `PrivacyManager::Query` (src/privacymanager.cpp), built on Tag.
-- MessageFilters: `ChatStateFilter` and `MessageEventFilter` (src/chatstatefilter.cpp,
--   src/messageeventfilter.cpp).
-- Capabilities: `Capabilities::generate` and `ver` (src/capabilities.cpp), over Sha and Base64.
-- Base64: `encode64` and `decode64` (src/base64.cpp).
-- The proofs stand in Util/Escape, Parser/Lookahead, Buffer, Window and Chunks (pieces of text),
--   Parser/Errors (refusals), Parser/CharRef (references), Parser/RoundTrip and its modules (printed
--   tags), Tag/Removal and Tag/Agreement, Jid/Parts and Jid/Consistent (addresses), Base64/RoundTrip,
--   InBandBytestream/Delivery, Framing and Order, Socks5Proxy/States, Handshake and Pieces,
--   HttpProxy/Answer and Throws, Sha/Stream, Digest, Words and Rounds, Roster/Highest, Pushes and Presences,
--   EventDispatcher/Order and Queue, Tag/Replaced and Added, Privacy/Attributes, Items and RoundTrip,
--   MessageFilters/ChatStates, Requests, EventRuns and Events, Capabilities/Sorting and Order.
--   The modules called Tests, but for Base/Tests, apply the theorems to concrete data.
--
-- The other loops of the source run over a text or a list and are recursions over it, so that no bound is
-- needed. `decode` and `forwardScan` move the index of the loop; here they give the number of bytes
-- that the loop then skips.
--
-- Texts are shorter than 2^31 bytes: `feed` of the parser and of SHA cast a length or an index to `int`,
-- which the functions here do not do.
--
-- Not modelled: the memory of tags (who deletes what), `m_deleteRoot`, the evaluation of XPath
-- expressions in src/tag.cpp, `strtol` beyond the range of `long`, which the length of a reference
-- rules out, `hex` of src/util.cpp, the stanza extensions of a resource, the delimiter of a roster, MD5,
-- and all other parts of the library: clients, sockets, TLS, the other managers and stanza extensions.
pub mod Base
pub mod Util
pub mod MessageFilters
pub mod Privacy
pub mod Roster
pub mod Sha
pub mod Socks5Proxy
pub mod StringMap
pub mod Map
pub mod Tag
pub mod Parser
pub mod Capabilities
pub mod Connection
pub mod Jid
pub mod Base64
pub mod EventDispatcher
pub mod HttpProxy
pub mod InBandBytestream
