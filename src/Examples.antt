-- ===== src/Examples.antt =====
-- Runs of the definitions on concrete inputs, and the theorems at such inputs.
mod Messages
mod SipRuns
mod ClientRuns
mod ServerRuns
mod LimiterRuns
mod RtpRuns
mod LayerRuns
mod DialogRuns
mod ProxyRuns
mod RegistrarRuns
mod MediaRuns
mod TransportRuns
mod AuthRuns
mod SdpRuns
mod AudioRuns
mod RelayRuns
mod CounterRuns
