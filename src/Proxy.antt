-- ===== src/Proxy.antt =====
-- proxy/pd_proxy.py: the proxy that sends a client's request to a prefill and a decode engine.
pub mod Session
pub mod Stream
pub mod Handle
