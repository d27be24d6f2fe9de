-- ===== src/HttpProxy/Throws.antt =====
-- Where `compare` throws while the answer of the proxy is read.
use gloox.HttpProxy.{HttpProxy}
