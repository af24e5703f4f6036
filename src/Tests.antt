-- ===== src/Tests.antt =====
-- Runs of the model on concrete inputs, and the theorems at inputs that meet their hypotheses.
mod Samples
mod DiagnosisTests
mod ProbeTests
mod CompareTests
mod RedactionTests
mod TargetTests
mod ProxyTests
mod ApplicationTests
mod PipelineTests
mod RouteTests
mod PluginTests
